-- ===== src/Tests/File.antt =====
-- The theorems on the file and on what is read from it at concrete inputs: a file of four atoms.
use nginx_hls_module.Base.{ℕ, ◌+◌, ◌≡◌, refl, List, [], ◌∷◌, Option, some, take, drop, arith}
use nginx_hls_module.Run.{ok, fault, ◌>>=◌}
use nginx_hls_module.Run.Returns.{Returns}
use nginx_hls_module.Memory.{Memory, IsMemory}
use nginx_hls_module.Reader.Moov.{moov_read}
use nginx_hls_module.File.{FileAtom, Mp4Context, mp4_context_init, mp4_read}
use nginx_hls_module.File.Open.{mp4_atom_read_header, mp4_atom_write_header, mp4_open}
use nginx_hls_module.File.State.{IsFile, IsContext, Window}
use nginx_hls_module.File.Window.{mp4_read-Window}
use nginx_hls_module.File.Header.{HeaderRead, header_bytes}
use nginx_hls_module.File.Written.{Placed, mp4_atom_write_header-mp4_atom_read_header}
use nginx_hls_module.File.Short.{mp4_atom_read_header-Clipped}
use nginx_hls_module.File.Walk.{Stands, no_more, other}
use nginx_hls_module.File.Media.{movie_of, with_header}
use nginx_hls_module.File.Movie.{IsMovieFile, Loaded, mp4_open-moov_read}
use nginx_hls_module.Tests.Octets.{are_octets, octets_of}

-- `free` of 8 bytes, `moov` of 16, `mdat` of 8.
abbrev file : List ℕ
file =
    0 ∷ 0 ∷ 0 ∷ 8 ∷ b'f' ∷ b'r' ∷ b'e' ∷ b'e' ∷ 0 ∷ 0 ∷ 0 ∷ 16 ∷ b'm' ∷ b'o' ∷ b'o' ∷ b'v' ∷ 0 ∷ 0
    ∷ 0 ∷ 8 ∷ b'f' ∷ b'r' ∷ b'e' ∷ b'e' ∷ 0 ∷ 0 ∷ 0 ∷ 8 ∷ b'm' ∷ b'd' ∷ b'a' ∷ b't' ∷ []

abbrev pool : ℕ → Option ℕ
pool n = some 4096

abbrev read_from : List ℕ → ℕ → ℕ → Option (List ℕ)
read_from contents n o = some (take n (drop o contents))

file-IsFile : IsFile file pool (read_from file)
unfolding are_octets
file-IsFile = record {
  octets = octets_of file refl;
  small = omega arith;
  reads = λ n o h. refl;
  allocates = λ n h. (4096, refl, omega arith);
}

abbrev start : Mp4Context
start = mp4_context_init 16 32

start-IsContext : IsContext file start
unfolding mp4_context_init
start-IsContext = record {
  whole = refl;
  limit = omega arith;
  unaligned = refl;
  buffered = λ b e. cc;
}

mp4_read-Window_example : Window file start 8 20 (mp4_read pool (read_from file) start 8 20)
mp4_read-Window_example = mp4_read-Window file-IsFile start 8 20 start-IsContext (omega arith)

-- A file of five bytes.
abbrev stump : List ℕ
stump = 0 ∷ 0 ∷ 0 ∷ 8 ∷ b'f' ∷ []

stump-IsFile : IsFile stump pool (read_from stump)
unfolding are_octets
stump-IsFile = record {
  octets = octets_of stump refl;
  small = omega arith;
  reads = λ n o h. refl;
  allocates = λ n h. (4096, refl, omega arith);
}

abbrev stump_start : Mp4Context
stump_start = mp4_context_init 16 5

stump_start-IsContext : IsContext stump stump_start
unfolding mp4_context_init
stump_start-IsContext = record {
  whole = refl;
  limit = omega arith;
  unaligned = refl;
  buffered = λ b e. cc;
}

mp4_atom_read_header-Clipped_example :
    mp4_atom_read_header pool (read_from stump) stump_start ≡ fault
unfolding mp4_context_init
mp4_atom_read_header-Clipped_example =
    mp4_atom_read_header-Clipped stump-IsFile stump_start stump_start-IsContext (omega arith)
      (omega arith)

abbrev free : FileAtom
free = record { type = 0x66726565; short_size = 8; size = 8; start = 0 }

abbrev moov : FileAtom
moov = record { type = 0x6d6f6f76; short_size = 16; size = 16; start = 8 }

abbrev mdat : FileAtom
mdat = record { type = 0x6d646174; short_size = 8; size = 8; start = 24 }

free-Stands : Stands file free
free-Stands = record {
  header = record {
    type = omega arith;
    least = omega arith;
    most = omega arith;
    narrow = λ e. (refl, omega arith);
  };
  at = record { before = []; behind = drop 8 file; parts = refl; place = refl };
}

moov-Stands : Stands file moov
moov-Stands = record {
  header = record {
    type = omega arith;
    least = omega arith;
    most = omega arith;
    narrow = λ e. (refl, omega arith);
  };
  at = record { before = take 8 file; behind = drop 16 file; parts = refl; place = refl };
}

mdat-Stands : Stands file mdat
mdat-Stands = record {
  header = record {
    type = omega arith;
    least = omega arith;
    most = omega arith;
    narrow = λ e. (refl, omega arith);
  };
  at = record { before = take 24 file; behind = []; parts = refl; place = refl };
}

-- Room for a header.
abbrev room : Memory
room = record {
  base = 4096;
  bytes = 1 ∷ 2 ∷ 3 ∷ 4 ∷ 5 ∷ 6 ∷ 7 ∷ 8 ∷ 9 ∷ 10 ∷ 11 ∷ 12 ∷ 13 ∷ 14 ∷ 15 ∷ 16 ∷ [];
}

room-IsMemory : IsMemory room
unfolding are_octets
room-IsMemory = record { octets = octets_of room.bytes refl; fits = omega arith }

mp4_atom_write_header-mp4_atom_read_header_example :
    Returns (Placed room 4096 (header_bytes free)) (mp4_atom_write_header room 4096 free)
    × Returns (HeaderRead file start free) (mp4_atom_read_header pool (read_from file) start)
unfolding mp4_context_init
mp4_atom_write_header-mp4_atom_read_header_example =
    mp4_atom_write_header-mp4_atom_read_header room-IsMemory 4096
      (record { above = omega arith; below = omega arith }) file-IsFile start free start-IsContext
      free-Stands.header refl free-Stands.at

file-IsMovieFile : IsMovieFile file 1024 1 0 moov mdat
file-IsMovieFile = record {
  in_front = other free free-Stands refl refl no_more;
  movie = moov-Stands;
  movie_type = refl;
  whole = omega arith;
  limit = omega arith;
  behind = no_more;
  media = mdat-Stands;
  media_type = refl;
}

mp4_open-moov_read_example :
    (l : Loaded file moov) × ((mp4_open pool (read_from file) 1024 0 (λ n. 65536) 10 3 16 32
        >>= λ o. ok (movie_of o))
      ≡ (moov_read 0 (λ n. 65536) 10 l.buffer (l.place + 8) 8 >>= λ r. ok (with_header r)))
mp4_open-moov_read_example =
    mp4_open-moov_read file-IsFile file-IsMovieFile 16 0 (λ n. 65536) 10 3 (omega arith)
      (omega arith)
