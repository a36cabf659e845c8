-- ===== src/Cfg/Ranges/Bounds.antt =====
-- The interval operations of cgull/cfg/integer_ranges.py, by the integers that an interval holds.
use cgull.Prelude.{
  ℤ, ◌≤ℤ◌, ltb_ℤ, true, false, Option, none, some, ◌≡◌, ◌⊎◌, ◌↔◌, refl, sym, inl, inr, arith,
  Bool-cases, subst,
}
use cgull.Cfg.Ranges.{
  IntegerRange, intersect, hull, fits_within, widen, max_ℤ, min_ℤ, tighter, looser, crossed,
  ends_fit, singleton, single_of, widened,
}

abbrev pub AtLeast : Option ℤ → ℤ → Type 0
AtLeast none v = Unit
AtLeast (some l) v = l ≤ℤ v

abbrev pub AtMost : Option ℤ → ℤ → Type 0
AtMost none v = Unit
AtMost (some u) v = v ≤ℤ u

-- The interval holds the integer.
abbrev pub In : ℤ → IntegerRange → Type 0
In v r = AtLeast r.lower v × AtMost r.upper v

tighter-lower :
    (a b : Option ℤ) (v : ℤ) → AtLeast (tighter max_ℤ a b) v ↔ (AtLeast a v × AtLeast b v)
tighter-lower none b v = (λ h. (tt, h), λ h. h.1)
tighter-lower (some a) none v = (λ h. (h, tt), λ h. h.0)
tighter-lower (some a) (some b) v = ground arith

tighter-upper : (a b : Option ℤ) (v : ℤ) → AtMost (tighter min_ℤ a b) v ↔ (AtMost a v × AtMost b v)
tighter-upper none b v = (λ h. (tt, h), λ h. h.1)
tighter-upper (some a) none v = (λ h. (h, tt), λ h. h.0)
tighter-upper (some a) (some b) v = ground arith

crossed-empty : (l u : Option ℤ) (v : ℤ) → AtLeast l v → AtMost u v → crossed l u ≡ false
crossed-empty none u v h k = refl
crossed-empty (some l) none v h k = refl
crossed-empty (some l) (some u) v h k = ground arith

looser-lower : (a b : Option ℤ) (v : ℤ) → AtLeast a v ⊎ AtLeast b v → AtLeast (looser min_ℤ a b) v
looser-lower none b v h = tt
looser-lower (some a) none v h = tt
looser-lower (some a) (some b) v (inl h) = ground arith
looser-lower (some a) (some b) v (inr h) = ground arith

looser-upper : (a b : Option ℤ) (v : ℤ) → AtMost a v ⊎ AtMost b v → AtMost (looser max_ℤ a b) v
looser-upper none b v h = tt
looser-upper (some a) none v h = tt
looser-upper (some a) (some b) v (inl h) = ground arith
looser-upper (some a) (some b) v (inr h) = ground arith

pub intersect-In :
    (a b : IntegerRange) (v : ℤ)
    → In v a
    → In v b
    → (r : IntegerRange) × (intersect a b ≡ some r) × In v r
unfolding intersect
intersect-In a b v ha hb =
    let l = (tighter-lower a.lower b.lower v).1 (ha.0, hb.0) in
    let u = (tighter-upper a.upper b.upper v).1 (ha.1, hb.1) in
    let open_ =
      crossed-empty (tighter max_ℤ a.lower b.lower) (tighter min_ℤ a.upper b.upper) v l u in
    (
      record { lower = tighter max_ℤ a.lower b.lower; upper = tighter min_ℤ a.upper b.upper },
      rw open_ refl,
      (l, u),
    )

pub In-intersect :
    (a b r : IntegerRange) (v : ℤ) → intersect a b ≡ some r → In v r → In v a × In v b
unfolding intersect
In-intersect a b r v e h =
    elim (Bool-cases (crossed (tighter max_ℤ a.lower b.lower) (tighter min_ℤ a.upper b.upper))) [
      | inl empty ↦ absurd (let e1 = rw (empty, intersect) at e in cc e1)
      | inr open_ ↦
          let same : record {
            lower = tighter max_ℤ a.lower b.lower;
            upper = tighter min_ℤ a.upper b.upper;
          }
              ≡ r =
            (let e1 = rw (open_, intersect) at e in cc e1) in
          let k = subst (In v) (sym same) h in
          let l = (tighter-lower a.lower b.lower v).0 k.0 in
          let u = (tighter-upper a.upper b.upper v).0 k.1 in ((l.0, u.0), (l.1, u.1))
    ]

pub hull-In : (a b : IntegerRange) (v : ℤ) → In v a ⊎ In v b → In v (hull a b)
unfolding hull
hull-In a b v (inl h) =
    (looser-lower a.lower b.lower v (inl h.0), looser-upper a.upper b.upper v (inl h.1))
hull-In a b v (inr h) =
    (looser-lower a.lower b.lower v (inr h.0), looser-upper a.upper b.upper v (inr h.1))

widened-lower : (p c : Option ℤ) (v : ℤ) → AtLeast c v → AtLeast (widened (λ p c. ltb_ℤ c p) p c) v
widened-lower none c v h = tt
widened-lower (some p) none v h = tt
widened-lower (some p) (some c) v h = ground arith

widened-upper : (p c : Option ℤ) (v : ℤ) → AtMost c v → AtMost (widened (λ p c. ltb_ℤ p c) p c) v
widened-upper none c v h = tt
widened-upper (some p) none v h = tt
widened-upper (some p) (some c) v h = ground arith

pub widen-In : (p c : IntegerRange) (v : ℤ) → In v c → In v (widen p c)
unfolding widen
widen-In p c v h = (widened-lower p.lower c.lower v h.0, widened-upper p.upper c.upper v h.1)

-- An end of an ascending chain stays, or is given up for good.
abbrev Settled : Option ℤ → Option ℤ → Type 0
Settled p w = (w ≡ p) ⊎ (w ≡ none)

widened-lower_settles :
    (p x : Option ℤ) → Settled p (widened (λ p c. ltb_ℤ c p) p (looser min_ℤ p x))
widened-lower_settles none x = inl refl
widened-lower_settles (some p) none = inr refl
widened-lower_settles (some p) (some x) = ground arith

widened-upper_settles :
    (p x : Option ℤ) → Settled p (widened (λ p c. ltb_ℤ p c) p (looser max_ℤ p x))
widened-upper_settles none x = inl refl
widened-upper_settles (some p) none = inr refl
widened-upper_settles (some p) (some x) = ground arith

-- Widening the hull of the previous interval and another holds every integer of both, and leaves
-- each end as it was or without a bound, so that a chain of such steps moves each end at most once.
pub widen-hull :
    (p x : IntegerRange)
    → ((v : ℤ) → In v p ⊎ In v x → In v (widen p (hull p x)))
      × (((widen p (hull p x)).lower ≡ p.lower) ⊎ ((widen p (hull p x)).lower ≡ none))
      × (((widen p (hull p x)).upper ≡ p.upper) ⊎ ((widen p (hull p x)).upper ≡ none))
unfolding widen hull
widen-hull p x = (
  λ v h. widen-In p (hull p x) v (hull-In p x v h),
  widened-lower_settles p.lower x.lower,
  widened-upper_settles p.upper x.upper,
)

fits_ends :
    (l u : Option ℤ) (d : IntegerRange) (v : ℤ)
    → ends_fit l u d ≡ true
    → AtLeast l v
    → AtMost u v
    → In v d
fits_ends none u d v h k m = absurd (cc h)
fits_ends (some l) none d v h k m = absurd (cc h)
fits_ends (some l) (some u) d v h k m = ends d.lower d.upper h
  where
    ends :
        (dl du : Option ℤ)
        → ends_fit (some l) (some u) (record { lower = dl; upper = du }) ≡ true
        → In v (record { lower = dl; upper = du })
    ends none none h = (tt, tt)
    ends none (some b) h = (tt, ground arith)
    ends (some a) none h = (ground arith, tt)
    ends (some a) (some b) h = (ground arith, ground arith)

pub fits_within-In : (r d : IntegerRange) (v : ℤ) → fits_within r d ≡ true → In v r → In v d
unfolding fits_within
fits_within-In r d v h k = fits_ends r.lower r.upper d v h k.0 k.1

pub singleton-In : (r : IntegerRange) (k v : ℤ) → singleton r ≡ some k → In v r → v ≡ k
singleton-In r k v h m = ends r.lower r.upper h m.0 m.1
  where
    ends : (l u : Option ℤ) → single_of l u ≡ some k → AtLeast l v → AtMost u v → v ≡ k
    ends none u h a b = absurd (cc h)
    ends (some l) none h a b = absurd (cc h)
    ends (some l) (some u) h a b = ground arith
