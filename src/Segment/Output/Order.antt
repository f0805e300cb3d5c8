-- ===== src/Segment/Output/Order.antt =====
-- In which order the samples of a segment are sent.
use nginx_hls_module.Base.{
  ℕ, zero, suc, ◌+◌, ◌≤◌, ◌<◌, ◌≡◌, ◌≢◌, ◌⊎◌, ◌∙◌, inl, inr, refl, sym, ap, subst, List, [], ◌∷◌,
  Option, none, some, true, false, Bool-cases, Option-cases, ltb, ltb→lt, ltb→le, ◌==◌, ==→eq,
  get_elem?, get_elem?_total, length, All, arith,
}
use mathlib.Core.Option.{some-injective}
use nginx_hls_module.Run.{ok}
use nginx_hls_module.Run.Returns.{Returns, returns, mono}
use nginx_hls_module.Mp4.Tables.{Sample}
use nginx_hls_module.Mp4.Tree.{Trak}
use nginx_hls_module.Reader.Tree.{is_set}
use nginx_hls_module.Ts.{Fragment}
use nginx_hls_module.Segment.Output.{new_order, head_sample}

-- The sample that a fragment sends next.
pub record Next (f : Fragment) (x : Sample) : Type 0 where
  pub trak : Trak
  pub has_trak : f.trak ≡ some trak
  pub unfinished : f.first ≢ f.last
  pub found : get_elem? trak.samples f.first ≡ some x

-- The places of a fragment are in the track's array.
abbrev pub InTrack : Fragment → Type 0
InTrack f = (t : Trak) → f.trak ≡ some t → f.first < length t.samples

-- No fragment has a sample below the bound, and the order is the one given.
pub record Kept (fs : List Fragment) (min_dts : ℕ) (order r : Option ℕ) : Type 0 where
  pub same : r ≡ order
  pub none_below :
      (k : ℕ) (f : Fragment) (x : Sample) → get_elem? fs k ≡ some f → Next f x → min_dts ≤ x.pts

-- The fragment with the least time: the first of those.
pub record Taken (fs : List Fragment) (i min_dts : ℕ) (r : Option ℕ) : Type 0 where
  pub place : ℕ
  pub fragment : Fragment
  pub sample : Sample
  pub chosen : r ≡ some (i + place)
  pub at : get_elem? fs place ≡ some fragment
  pub next : Next fragment sample
  pub below : sample.pts < min_dts
  pub least :
      (k : ℕ) (f : Fragment) (x : Sample)
      → get_elem? fs k ≡ some f
      → Next f x
      → (sample.pts ≤ x.pts) × (k < place → sample.pts < x.pts)

abbrev Least : List Fragment → ℕ → ℕ → Option ℕ → Option ℕ → Type 0
Least fs i min_dts order r = Kept fs min_dts order r ⊎ Taken fs i min_dts r

-- A fragment has one next sample.
pub Next-pts : {f : Fragment} {x y : Sample} → Next f x → Next f y → x.pts ≡ y.pts
Next-pts {f} {x} {y} n k =
    let same : n.trak ≡ k.trak = some-injective _ _ (sym n.has_trak ∙ k.has_trak) in
    ap (λ (s : Sample). s.pts)
      (some-injective _ _
        (sym n.found ∙ ap (λ (t : Trak). get_elem? t.samples f.first) same ∙ k.found))

-- What holds of the element in front and of those behind it.
by_place :
    (Q : ℕ → Fragment → Type 0) (f : Fragment) (fs : List Fragment)
    → Q 0 f
    → ((k : ℕ) (g : Fragment) → get_elem? fs k ≡ some g → Q (suc k) g)
    → (k : ℕ) (g : Fragment) → get_elem? (f ∷ fs) k ≡ some g
    → Q k g
by_place Q f fs here rest zero g e = subst (Q 0) (some-injective f g e) here
by_place Q f fs here rest (suc k) g e = rest k g e

-- A fragment in front whose next sample, if it has one, is not below.
over :
    (f : Fragment) (fs : List Fragment) (i min_dts : ℕ) (order : Option ℕ) (r : Option ℕ)
    → ((x : Sample) → Next f x → min_dts ≤ x.pts)
    → Least fs (i + 1) min_dts order r
    → Least (f ∷ fs) i min_dts order r
over f fs i min_dts order r high (inl k) = inl (record {
  same = k.same;
  none_below = λ j g x e n.
      by_place (λ p h. (y : Sample) → Next h y → min_dts ≤ y.pts) f fs high
        (λ p h e' y. k.none_below p h y e') j g e x n;
})
over f fs i min_dts order r high (inr t) = inr (record {
  place = suc t.place;
  fragment = t.fragment;
  sample = t.sample;
  chosen = t.chosen ∙ ap some (omega arith);
  at = t.at;
  next = t.next;
  below = t.below;
  least = λ j g x e n.
      by_place
        (λ p h.
          (y : Sample)
          → Next h y
          → (t.sample.pts ≤ y.pts) × (p < suc t.place → t.sample.pts < y.pts))
        f fs (λ y m. let h = high y m in (omega (arith, t.below), λ q. omega (arith, t.below)))
        (λ p h e' y m. let l = t.least p h y e' m in (l.0, λ q. l.1 (omega arith))) j g e x n;
})

-- A fragment in front that is below, with what the rest has for the new bound.
taken :
    (f : Fragment) (fs : List Fragment) (i min_dts : ℕ) (x : Sample) (r : Option ℕ)
    → Next f x
    → x.pts < min_dts
    → Least fs (i + 1) x.pts (some i) r
    → Taken (f ∷ fs) i min_dts r
taken f fs i min_dts x r n low (inl k) = record {
  place = 0;
  fragment = f;
  sample = x;
  chosen = k.same ∙ ap some (omega arith);
  at = refl;
  next = n;
  below = low;
  least = λ j g y e m.
      by_place (λ p h. (z : Sample) → Next h z → (x.pts ≤ z.pts) × (p < 0 → x.pts < z.pts)) f fs
        (λ z m'. let same = Next-pts n m' in (omega (arith, same), λ q. omega arith))
        (λ p h e' z m'. (k.none_below p h z e' m', λ q. omega arith)) j g e y m;
}
taken f fs i min_dts x r n low (inr t) = record {
  place = suc t.place;
  fragment = t.fragment;
  sample = t.sample;
  chosen = t.chosen ∙ ap some (omega arith);
  at = t.at;
  next = t.next;
  below = omega (arith, t.below);
  least = λ j g y e m.
      by_place
        (λ p h.
          (z : Sample)
          → Next h z
          → (t.sample.pts ≤ z.pts) × (p < suc t.place → t.sample.pts < z.pts))
        f fs
        (λ z m'.
          let same = Next-pts n m' in
          (omega (arith, same, t.below), λ q. omega (arith, same, t.below)))
        (λ p h e' z m'. let l = t.least p h z e' m' in (l.0, λ q. l.1 (omega arith))) j g e y m;
}

head_sample-Next : {f : Fragment} {x : Sample} → Next f x → head_sample f ≡ ok x
unfolding head_sample
head_sample-Next n = rw (n.has_trak, n.found) refl

trak_there : {f : Fragment} {x : Sample} → Next f x → f.trak ≢ none
trak_there n = λ e. cc

-- The order that is chosen is that of the first fragment whose next sample has the least time of
-- those below the bound, and the one given where there is none below.
pub new_order-Least :
    (fs : List Fragment) (i min_dts : ℕ) (order : Option ℕ)
    → All InTrack fs
    → Returns (Least fs i min_dts order) (new_order fs i min_dts order)
unfolding new_order
new_order-Least [] i min_dts order inside =
    returns (inl (record { same = refl; none_below = λ k f x e n. cc }))
new_order-Least (f ∷ fs) i min_dts order inside =
    let rest = new_order-Least fs (i + 1) in
    elim (Option-cases f.trak) [
      | inl empty ↦
          let unset : is_set f.trak ≡ false = ap is_set empty in
          rw unset (
            mono (rest min_dts order inside.1)
              (λ r. over f fs i min_dts order r (λ y m. absurd (trak_there m empty))))
      | inr (t, has) ↦
          let set : is_set f.trak ≡ true = ap is_set has in
          let (x, found) = get_elem?_total t.samples f.first (inside.0 t has) in
          elim (Bool-cases (f.first == f.last)) [
            | inl sent ↦
                rw (set, sent)
                  (mono (rest min_dts order inside.1) (λ r.
                    over f fs i min_dts order r
                      (λ y m. absurd (m.unfinished (==→eq f.first f.last sent)))))
            | inr waits ↦
                let n : Next f x = record {
                  trak = t;
                  has_trak = has;
                  unfinished = λ e. ground arith;
                  found = found;
                } in
                let head = head_sample-Next n in
                elim (Bool-cases (ltb x.pts min_dts)) [
                  | inl low ↦
                      rw (set, waits, head, low)
                        (mono (rest x.pts (some i) inside.1)
                          (λ r h. inr (taken f fs i min_dts x r n (ltb→lt x.pts min_dts low) h)))
                  | inr high ↦
                      rw (set, waits, head, high)
                        (mono (rest min_dts order inside.1) (λ r.
                          over f fs i min_dts order r
                            (λ y m. omega (arith, Next-pts n m, ltb→le x.pts min_dts high))))
                ]
          ]
    ]
