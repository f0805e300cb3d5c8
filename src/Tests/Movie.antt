-- ===== src/Tests/Movie.antt =====
-- The readers of atoms at a small movie, and at payloads of atoms.
use nginx_hls_module.Base.{
  ℕ, zero, suc, ◌+◌, ◌-◌, ◌≡◌, ◌≢◌, refl, List, [], ◌∷◌, Option, none, some, Bool, true, not, ltb,
  ◌==◌, ◌&&◌, arith, replicate, le→ltb,
}
use nginx_hls_module.Run.{Run, ok, out_of_fuel}
use nginx_hls_module.Run.Finite
use nginx_hls_module.Run.Finite.{Finite, returns}
use nginx_hls_module.Memory.{
  Memory, IsMemory, Readable, load, read_8, read_16, read_24, read_32, read_64,
}
use nginx_hls_module.Memory.Finite.{read_8-Finite, read_24-Finite, read_32-Finite}
use nginx_hls_module.Memory.Reads.{nth, byte_at, be_32}
use nginx_hls_module.Memory.Holds.{Holds}
use nginx_hls_module.Mp4.{fourcc, max_tracks}
use nginx_hls_module.Mp4.Headers.{Trex}
use nginx_hls_module.Mp4.Tree.{Moov, moov_init, Mvex, mvex_init}
use nginx_hls_module.Reader.Rows.{read_rows}
use nginx_hls_module.Reader.Tables.{stts_read}
use nginx_hls_module.Reader.Headers.{tkhd_read, mdhd_read, hdlr_read, copy_bytes}
use nginx_hls_module.Reader.Movie.{mvhd_read, trex_read}
use nginx_hls_module.Reader.Entry.{stsd_read, stsd_parse}
use nginx_hls_module.Reader.Atom.{
  atom_reader, atom_loop, read_atom, atom_read_header, unknown_atom_add_atom, find_row, add_child,
}
use nginx_hls_module.Reader.Atom.Boxes.{Box, encode_boxes, visit_boxes, atom_reader-visit_boxes}
use nginx_hls_module.Reader.Atom.Ends.{NoWrap, atom_reader-Finite}
use nginx_hls_module.Reader.Atom.Endless.{LeadsBack, atom_loop_endless}
use nginx_hls_module.Reader.Tree.{stbl_read, minf_read, mdia_read}
use nginx_hls_module.Reader.Moov.{moov_read, trak_read, mvex_ops, mvex_rows, mvex_add_trex}
use nginx_hls_module.Reader.Moov.Shape.{IsMoov, moov_read-IsMoov}
use nginx_hls_module.Tests.Octets.{Holds-of, are_held, are_octets, octets_of}

-- The payload of a `moov` atom: `mvhd`, an atom of no known type, and a track of video.
abbrev movie : Memory
movie = record {
  base = 4096;
  bytes =
      0 ∷ 0 ∷ 0 ∷ 108 ∷ 109 ∷ 118 ∷ 104 ∷ 100 ∷ 0 ∷ 0 ∷ 0 ∷ 0 ∷ 0 ∷ 0 ∷ 0 ∷ 1 ∷ 0 ∷ 0 ∷ 0 ∷ 2 ∷ 0
      ∷ 0 ∷ 3 ∷ 232 ∷ 0 ∷ 0 ∷ 19 ∷ 136 ∷ 0 ∷ 0 ∷ 0 ∷ 0 ∷ 0 ∷ 0 ∷ 0 ∷ 0 ∷ 0 ∷ 0 ∷ 0 ∷ 0 ∷ 0 ∷ 0 ∷ 0
      ∷ 0 ∷ 0 ∷ 0 ∷ 0 ∷ 0 ∷ 0 ∷ 0 ∷ 0 ∷ 0 ∷ 0 ∷ 0 ∷ 0 ∷ 0 ∷ 0 ∷ 0 ∷ 0 ∷ 0 ∷ 0 ∷ 0 ∷ 0 ∷ 0 ∷ 0 ∷ 0
      ∷ 0 ∷ 0 ∷ 0 ∷ 0 ∷ 0 ∷ 0 ∷ 0 ∷ 0 ∷ 0 ∷ 0 ∷ 0 ∷ 0 ∷ 0 ∷ 0 ∷ 0 ∷ 0 ∷ 0 ∷ 0 ∷ 0 ∷ 0 ∷ 0 ∷ 0 ∷ 0
      ∷ 0 ∷ 0 ∷ 0 ∷ 0 ∷ 0 ∷ 0 ∷ 0 ∷ 0 ∷ 0 ∷ 0 ∷ 0 ∷ 0 ∷ 0 ∷ 0 ∷ 0 ∷ 0 ∷ 0 ∷ 0 ∷ 0 ∷ 0 ∷ 0 ∷ 0 ∷ 8
      ∷ 102 ∷ 114 ∷ 101 ∷ 101 ∷ 0 ∷ 0 ∷ 0 ∷ 228 ∷ 116 ∷ 114 ∷ 97 ∷ 107 ∷ 0 ∷ 0 ∷ 0 ∷ 92 ∷ 116 ∷ 107
      ∷ 104 ∷ 100 ∷ 0 ∷ 0 ∷ 0 ∷ 1 ∷ 0 ∷ 0 ∷ 0 ∷ 1 ∷ 0 ∷ 0 ∷ 0 ∷ 2 ∷ 0 ∷ 0 ∷ 0 ∷ 1 ∷ 0 ∷ 0 ∷ 0 ∷ 0
      ∷ 0 ∷ 0 ∷ 19 ∷ 136 ∷ 0 ∷ 0 ∷ 0 ∷ 0 ∷ 0 ∷ 0 ∷ 0 ∷ 0 ∷ 0 ∷ 0 ∷ 0 ∷ 0 ∷ 0 ∷ 0 ∷ 0 ∷ 0 ∷ 0 ∷ 0 ∷ 0
      ∷ 0 ∷ 0 ∷ 0 ∷ 0 ∷ 0 ∷ 0 ∷ 0 ∷ 0 ∷ 0 ∷ 0 ∷ 0 ∷ 0 ∷ 0 ∷ 0 ∷ 0 ∷ 0 ∷ 0 ∷ 0 ∷ 0 ∷ 0 ∷ 0 ∷ 0 ∷ 0
      ∷ 0 ∷ 0 ∷ 0 ∷ 0 ∷ 0 ∷ 0 ∷ 0 ∷ 0 ∷ 0 ∷ 0 ∷ 0 ∷ 0 ∷ 0 ∷ 0 ∷ 0 ∷ 0 ∷ 0 ∷ 0 ∷ 0 ∷ 0 ∷ 0 ∷ 128
      ∷ 109 ∷ 100 ∷ 105 ∷ 97 ∷ 0 ∷ 0 ∷ 0 ∷ 32 ∷ 109 ∷ 100 ∷ 104 ∷ 100 ∷ 0 ∷ 0 ∷ 0 ∷ 0 ∷ 0 ∷ 0 ∷ 0
      ∷ 1 ∷ 0 ∷ 0 ∷ 0 ∷ 2 ∷ 0 ∷ 0 ∷ 2 ∷ 88 ∷ 0 ∷ 0 ∷ 11 ∷ 184 ∷ 0 ∷ 0 ∷ 0 ∷ 0 ∷ 0 ∷ 0 ∷ 0 ∷ 32 ∷ 104
      ∷ 100 ∷ 108 ∷ 114 ∷ 0 ∷ 0 ∷ 0 ∷ 0 ∷ 0 ∷ 0 ∷ 0 ∷ 0 ∷ 118 ∷ 105 ∷ 100 ∷ 101 ∷ 0 ∷ 0 ∷ 0 ∷ 0 ∷ 0
      ∷ 0 ∷ 0 ∷ 0 ∷ 0 ∷ 0 ∷ 0 ∷ 0 ∷ 0 ∷ 0 ∷ 0 ∷ 56 ∷ 109 ∷ 105 ∷ 110 ∷ 102 ∷ 0 ∷ 0 ∷ 0 ∷ 48 ∷ 115
      ∷ 116 ∷ 98 ∷ 108 ∷ 0 ∷ 0 ∷ 0 ∷ 16 ∷ 115 ∷ 116 ∷ 115 ∷ 100 ∷ 0 ∷ 0 ∷ 0 ∷ 0 ∷ 0 ∷ 0 ∷ 0 ∷ 0 ∷ 0
      ∷ 0 ∷ 0 ∷ 24 ∷ 115 ∷ 116 ∷ 116 ∷ 115 ∷ 0 ∷ 0 ∷ 0 ∷ 0 ∷ 0 ∷ 0 ∷ 0 ∷ 1 ∷ 0 ∷ 0 ∷ 0 ∷ 5 ∷ 0 ∷ 0
      ∷ 2 ∷ 88 ∷ [];
}

abbrev returned : Run (Option Moov) → Moov
returned (ok (some v)) = v
returned r = moov_init

movie_is_read :
    moov_read 0 (λ p. p) 9 movie 4096 344
    ≡ ok (some (returned (moov_read 0 (λ p. p) 9 movie 4096 344)))
unfolding moov_read mvhd_read trak_read tkhd_read mdia_read mdhd_read hdlr_read minf_read stbl_read
    stsd_read stts_read stsd_parse read_rows load read_8 read_16 read_24 read_32 read_64 atom_reader
    atom_loop read_atom atom_read_header unknown_atom_add_atom copy_bytes
movie_is_read = refl

moov_read-IsMoov_example : IsMoov (returned (moov_read 0 (λ p. p) 9 movie 4096 344))
moov_read-IsMoov_example = moov_read-IsMoov 0 (λ p. p) 9 movie 4096 344 _ movie_is_read

-- An atom for a row and one for none.
abbrev boxes : List Box
boxes =
    record { type = fourcc b't' b'r' b'e' b'x'; payload = replicate 24 0 }
    ∷ record { type = fourcc b'f' b'r' b'e' b'e'; payload = [] }
    ∷ []

abbrev fragments : Memory
fragments = record { base = 4096; bytes = encode_boxes boxes }

fragments-IsMemory : IsMemory fragments
unfolding are_octets
fragments-IsMemory = record { octets = octets_of fragments.bytes refl; fits = omega arith }

fragments-Holds : Holds fragments 4096 (encode_boxes boxes)
unfolding byte_at nth are_held
fragments-Holds = Holds-of fragments 4096 (encode_boxes boxes) refl

atom_reader-visit_boxes_example :
    atom_reader mvex_ops mvex_rows 3 fragments mvex_init 4096 40
    ≡ visit_boxes mvex_ops mvex_rows fragments 4136 4096 mvex_init boxes
atom_reader-visit_boxes_example =
    atom_reader-visit_boxes mvex_ops mvex_rows fragments-IsMemory boxes 3 4096 mvex_init
      (
        record { type_fits = omega arith; size_fits = omega arith },
        (record { type_fits = omega arith; size_fits = omega arith }, tt),
      )
      (record { above = omega arith; below = omega arith }) fragments-Holds (omega arith)

other_than_1 : List ℕ → Bool
other_than_1 [] = true
other_than_1 (b ∷ bs) = not (b == 1) && other_than_1 bs

nth-other_than_1 : (bs : List ℕ) (i : ℕ) → other_than_1 bs ≡ true → nth bs i ≢ 1
unfolding nth other_than_1
nth-other_than_1 [] i e k = omega arith
nth-other_than_1 (b ∷ bs) zero e k = ground arith
nth-other_than_1 (b ∷ bs) (suc i) e k = nth-other_than_1 bs i (ground arith) k

fragments-NoWrap : NoWrap fragments
unfolding byte_at other_than_1
fragments-NoWrap = record {
  low = omega arith;
  extended =
      λ q r e. absurd (nth-other_than_1 fragments.bytes (q + 3 - 4096) refl (last_byte q r e));
}
  where
    last_byte :
        (q : ℕ)
        → Readable fragments q 16
        → be_32 fragments q ≡ 1
        → nth fragments.bytes (q + 3 - 4096) ≡ 1
    last_byte q r e =
        let h : byte_at fragments (q + 3) ≡ 1 = omega arith in
        rw (le→ltb (q + 3) 4096 (omega arith)) at h

trex_read-Finite : (m : Memory) (p n : ℕ) → Finite (trex_read m p n)
unfolding trex_read
trex_read-Finite m p n = Finite.branch (ltb n 24) (returns none) (
    Finite.bind (read_8-Finite m p) λ v. Finite.bind (read_24-Finite m (p + 1)) λ f.
      Finite.bind (read_32-Finite m (p + 4)) λ track.
        Finite.bind (read_32-Finite m (p + 8)) λ index.
          Finite.bind (read_32-Finite m (p + 12)) λ length.
            Finite.bind (read_32-Finite m (p + 16))
              λ bytes. Finite.bind (read_32-Finite m (p + 20)) λ marks. returns _)

mvex_add_trex-Finite : (s : Mvex) (o : Option Trex) → Finite (add_child mvex_add_trex s o)
unfolding mvex_add_trex
mvex_add_trex-Finite s none = returns _
mvex_add_trex-Finite s (some t) = Finite.branch (s.tracks == max_tracks) (returns _) (returns _)

atom_reader-Finite_example : Finite (atom_reader mvex_ops mvex_rows 7 fragments mvex_init 4096 40)
atom_reader-Finite_example =
    atom_reader-Finite mvex_ops mvex_rows fragments fragments-IsMemory fragments-NoWrap
      (λ s. returns _)
      (λ s p n. Finite.bind (trex_read-Finite fragments p n) (mvex_add_trex-Finite s), tt) 6
      mvex_init 4096 40 (omega arith)

-- `free` of 16 bytes, and `free` with the 64-bit size `2 ^ 64 - 16`.
abbrev round_trip : Memory
round_trip = record {
  base = 4096;
  bytes =
      0 ∷ 0 ∷ 0 ∷ 16 ∷ 102 ∷ 114 ∷ 101 ∷ 101 ∷ 0 ∷ 0 ∷ 0 ∷ 0 ∷ 0 ∷ 0 ∷ 0 ∷ 0 ∷ 0 ∷ 0 ∷ 0 ∷ 1 ∷ 102
      ∷ 114 ∷ 101 ∷ 101 ∷ 255 ∷ 255 ∷ 255 ∷ 255 ∷ 255 ∷ 255 ∷ 255 ∷ 240 ∷ [];
}

round_trip-IsMemory : IsMemory round_trip
unfolding are_octets
round_trip-IsMemory = record { octets = octets_of round_trip.bytes refl; fits = omega arith }

round_trip-LeadsBack : LeadsBack mvex_rows round_trip 4096 4128
unfolding byte_at nth find_row
round_trip-LeadsBack = record {
  readable = record { above = omega arith; below = omega arith };
  first_size = refl;
  first_type = refl;
  second_size = refl;
  second_type = refl;
  second_end = refl;
  inside = omega arith;
}

atom_loop_endless_example :
    atom_loop mvex_ops mvex_rows 1000 round_trip 4128 4096 mvex_init ≡ out_of_fuel
atom_loop_endless_example =
    atom_loop_endless mvex_ops mvex_rows round_trip-IsMemory (λ s. (s.unknown_atoms, refl))
      round_trip-LeadsBack 1000 mvex_init
