-- ===== src/Segment/Output/Time.antt =====
-- The choice of the next sample in `output_ts`, round by round, for fragments whose times rise.
use nginx_hls_module.Base.{
  ℕ, zero, suc, ◌+◌, ◌≤◌, ◌<◌, ◌≡◌, ◌⊎◌, ◌∙◌, inl, inr, refl, sym, ap, subst, List, [], ◌∷◌, Option,
  none, some, get_elem?, get_elem?_total, set, length, All, arith,
}
use mathlib.Core.Option.{some-injective}
use nginx_hls_module.Run.Returns.{Returns, mono}
use nginx_hls_module.Mp4.Tables.{Sample}
use nginx_hls_module.Mp4.Tree.{Trak}
use nginx_hls_module.Ts.{Fragment, MpegtsStream}
use nginx_hls_module.Segment.Output.{new_order}
use nginx_hls_module.Segment.Output.Order.{Next, InTrack, Kept, Taken, new_order-Least}

-- What a fragment still has to send: its times are not below `t`, and they rise.
pub record Rising (t : ℕ) (f : Fragment) : Type 0 where
  pub forward : f.first ≤ f.last
  pub inside : (trak : Trak) → f.trak ≡ some trak → f.last < length trak.samples
  pub ordered :
      (trak : Trak) (p q : ℕ) (x y : Sample)
      → f.trak ≡ some trak
      → f.first ≤ p
      → p ≤ q
      → q < f.last
      → get_elem? trak.samples p ≡ some x
      → get_elem? trak.samples q ≡ some y
      → (t ≤ x.pts) × (x.pts ≤ y.pts)

in_track : {t : ℕ} {f : Fragment} → Rising t f → InTrack f
in_track r trak has = omega (arith, r.forward, r.inside trak has)

All-at :
    (P : Fragment → Type 0) (fs : List Fragment) (k : ℕ) (g : Fragment)
    → All P fs
    → get_elem? fs k ≡ some g
    → P g
All-at P [] k g h e = cc
All-at P (f ∷ fs) zero g h e = subst P (some-injective f g e) h.0
All-at P (f ∷ fs) (suc k) g h e = All-at P fs k g h.1 e

All-of :
    (P : Fragment → Type 0) (fs : List Fragment)
    → ((k : ℕ) (g : Fragment) → get_elem? fs k ≡ some g → P g)
    → All P fs
All-of P [] h = tt
All-of P (f ∷ fs) h = (h 0 f refl, All-of P fs (λ k g e. h (suc k) g e))

-- A list with one element replaced.
All-set :
    (P : Fragment → Type 0) (fs : List Fragment) (i : ℕ) (v : Fragment)
    → P v
    → ((k : ℕ) (g : Fragment) → get_elem? fs k ≡ some g → P g)
    → All P (set fs i v)
All-set P [] i v new old = tt
All-set P (f ∷ fs) zero v new old = (new, All-of P fs (λ k g e. old (suc k) g e))
All-set P (f ∷ fs) (suc i) v new old =
    (old 0 f refl, All-set P fs i v new (λ k g e. old (suc k) g e))

-- A fragment that is not sent from.
wait :
    (t : ℕ) (x : Sample) (f : Fragment)
    → Rising t f
    → ((y : Sample) → Next f y → x.pts ≤ y.pts)
    → Rising x.pts f
wait t x f r least = record {
  forward = r.forward;
  inside = r.inside;
  ordered = λ trak p q y z has low mid high at_p at_q.
      let (w, found) = get_elem?_total trak.samples f.first (in_track r trak has) in
      let first = r.ordered trak f.first p w y has (omega arith) low (omega arith) found at_p in
      let here = r.ordered trak p q y z has low mid high at_p at_q in
      let n : Next f w = record {
        trak = trak;
        has_trak = has;
        unfinished = λ e. omega arith;
        found = found;
      } in
      (omega (arith, least w n, first.1), here.1);
}

-- The fragment that is sent from.
advance :
    (t : ℕ) (x : Sample) (f : Fragment) (s : Option MpegtsStream)
    → Rising t f
    → Next f x
    → (t ≤ x.pts) × Rising x.pts (record f { first = f.first + 1; stream = s })
advance t x f s r n =
    let forward = r.forward in
    let more : f.first < f.last = omega (arith, n.unfinished) in
    (
      (r.ordered n.trak f.first f.first x x n.has_trak (omega arith) (omega arith) more n.found
          n.found).0,
      record {
        forward = omega arith;
        inside = r.inside;
        ordered = λ trak p q y z has low mid high at_p at_q.
            let same : n.trak ≡ trak = some-injective _ _ (sym n.has_trak ∙ has) in
            let found = ap (λ (k : Trak). get_elem? k.samples f.first) (sym same) ∙ n.found in
            (
              (r.ordered trak f.first p x y has (omega arith) (omega arith) (omega arith) found
                  at_p).1,
              (r.ordered trak p q y z has (omega arith) mid high at_p at_q).1,
            );
      },
    )

-- What a round does: it keeps the order, or sends from a fragment, not earlier than before, and what
-- is left is not earlier than what it sends.
pub record Sent (t : ℕ) (fs : List Fragment) (r : Option ℕ) : Type 0 where
  pub place : ℕ
  pub fragment : Fragment
  pub sample : Sample
  pub chosen : r ≡ some place
  pub at : get_elem? fs place ≡ some fragment
  pub next : Next fragment sample
  pub in_time : t ≤ sample.pts
  pub left :
      (s : Option MpegtsStream)
      → All
          (Rising sample.pts)
          (set fs place (record fragment { first = fragment.first + 1; stream = s }))

-- Where the times of every fragment rise from `t` on, a round of the loop chooses a fragment whose
-- next sample is not earlier than `t`, and with that sample sent the times of every fragment rise
-- from its time on; or no fragment has a sample below the bound.
pub new_order-Rising :
    (fs : List Fragment) (t min_dts : ℕ) (order : Option ℕ)
    → All (Rising t) fs
    → Returns (λ r. Kept fs min_dts order r ⊎ Sent t fs r) (new_order fs 0 min_dts order)
new_order-Rising fs t min_dts order rising =
    mono
      (new_order-Least fs 0 min_dts order
        (All-of InTrack fs (λ k g e. in_track (All-at (Rising t) fs k g rising e))))
      λ r h. elim h [ inl kept ↦ inl kept | inr taken ↦ inr (sent taken) ]
  where
    sent : {r : Option ℕ} → Taken fs 0 min_dts r → Sent t fs r
    sent k =
        let rises = All-at (Rising t) fs k.place k.fragment rising k.at in
        record {
          place = k.place;
          fragment = k.fragment;
          sample = k.sample;
          chosen = k.chosen ∙ ap some (omega arith);
          at = k.at;
          next = k.next;
          in_time = (advance t k.sample k.fragment none rises k.next).0;
          left = λ s.
              All-set (Rising k.sample.pts) fs k.place
                (record k.fragment { first = k.fragment.first + 1; stream = s })
                (advance t k.sample k.fragment s rises k.next).1
                (λ j g e.
                  wait t k.sample g (All-at (Rising t) fs j g rising e)
                    (λ y m. (k.least j g y e m).0));
        }
