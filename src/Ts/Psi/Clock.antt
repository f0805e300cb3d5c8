-- ===== src/Ts/Psi/Clock.antt =====
-- Which stream `write_header` takes for the clock.
use nginx_hls_module.Base.{
  ℕ, ◌≡◌, ◌≢◌, refl, ap, List, [], ◌∷◌, false, none, some, ◌==◌, if◌then◌else◌, Bool-cases, ==→eq,
  inl, inr,
}
use nginx_hls_module.Run.{ok, fault, ◌>>=◌}
use nginx_hls_module.Mp4.Tree.{Trak}
use nginx_hls_module.Reader.Moov.{trak_handler}
use nginx_hls_module.Ts.{Fragment, MpegtsMuxer}
use nginx_hls_module.Ts.Psi.{vide, clock_stream, write_header}
use nginx_hls_module.Ts.Psi.Tables.{HasProgram, sound, video, Programs}

-- The PID of the first video stream of a map, if there is one.
unfoldable pub video_pid : ℕ → List (ℕ × ℕ) → ℕ
video_pid pid [] = pid
video_pid pid (p ∷ ps) = let later = video_pid pid ps in if p.0 == 0x1b then p.1 else later

clock_stream-video_pid :
    (pid : ℕ) (fs : List Fragment) (ps : List (ℕ × ℕ))
    → Programs fs ps
    → clock_stream pid fs ≡ ok (video_pid pid ps)
unfolding clock_stream video_pid
clock_stream-video_pid pid [] [] h = refl
clock_stream-video_pid pid [] (p ∷ ps) h = absurd h
clock_stream-video_pid pid (f ∷ fs) [] h = absurd h
clock_stream-video_pid pid (f ∷ fs) ((t, n) ∷ ps) (program, small, rest) =
    first f n t program (clock_stream-video_pid pid fs ps rest)
  where
    first :
        (f : Fragment) (n t : ℕ)
        → HasProgram f n t
        → clock_stream pid fs ≡ ok (video_pid pid ps)
        → clock_stream pid (f ∷ fs) ≡ ok (video_pid pid ((t, n) ∷ ps))
    first f n t (sound trak stream e1 e2 e3 e4) later = rw (e1, e2) later
    first f n t (video trak stream e1 e2 e3 e4) later = rw (e1, e2, e3) (ap ok e4)

-- For fragments that all have their track and stream, `write_header` gives the clock to the first
-- video stream, and leaves the muxer as it is where there is none.
pub write_header-video_pid :
    (m : MpegtsMuxer) (ps : List (ℕ × ℕ))
    → Programs m.fragment ps
    → write_header m ≡ ok (record m { pcr_pid = video_pid m.pcr_pid ps })
unfolding write_header
write_header-video_pid m ps h =
    ap (λ r. r >>= λ pid. ok (record m { pcr_pid = pid }))
      (clock_stream-video_pid m.pcr_pid m.fragment ps h)

-- Where the first fragment is not of video, and the second has no track, `write_header` follows a
-- NULL pointer.
pub write_header-fault :
    (m : MpegtsMuxer) (f g : Fragment) (rest : List Fragment) (trak : Trak) (handler : ℕ)
    → m.fragment ≡ f ∷ g ∷ rest
    → f.trak ≡ some trak
    → trak_handler trak ≡ ok handler
    → handler ≢ vide
    → g.trak ≡ none
    → write_header m ≡ fault
unfolding write_header clock_stream
write_header-fault m f g rest trak handler e1 e2 e3 ne e4 =
    let other : (handler == vide) ≡ false = elim (Bool-cases (handler == vide)) [
      | inl e ↦ absurd (ne (==→eq handler vide e))
      | inr e ↦ e
    ] in
    rw e1 (rw (e2, e3, other, e4) refl)
