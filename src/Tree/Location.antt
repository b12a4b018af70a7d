-- ===== src/Tree/Location.antt =====
-- What `check_location` accepts.
use kahuna.Common.{
  ℕ, zero, suc, ◌+◌, ◌-◌, ◌≤◌, ◌<◌, ◌≡◌, refl, ◌↔◌, ◌∙◌, Bool, true, false, ◌&&◌, [], ◌∷◌, Option,
  none, some, length, get_elem?, take, drop, ok, err, Safe, arith, ltb, leb, ◌==◌, if◌then◌else◌,
  get_elem?-drop, take-append-drop, inl, inr, Bool-cases, get_elem?-some,
}
use kahuna.Tree.{
  Node, Items, TargetPosition, check_location, valid_range, node_before, LevelRange, invalid_level,
  Fallible,
}
use kahuna.Tree.Split.{ClosedBy}
use kahuna.Tree.Nesting.{Nested, WellFormed, bound_after, Nested-append_right}

-- The level is one that a node may have behind the node before, and the node at the location, no
-- deeper than the level, does not become a child of what is inserted.
pub record Located (items : Items) (before level : ℕ) : Type 0 where
  pub in_range : before ≤ length items
  pub under_bound : level ≤ bound_after 0 (take before items)
  pub closes : ClosedBy level (drop before items)

abbrev bound_of : Option Node → ℕ
bound_of none = 0
bound_of (some b) = suc b.level

abbrev NotAbove : ℕ → Option Node → Type 0
NotAbove level none = Unit
NotAbove level (some x) = x.level ≤ level

abbrev in_levels : LevelRange → ℕ → Bool
in_levels range level = leb range.0 level && leb level range.1

valid_range_iff :
    (before after : Option Node) (level : ℕ)
    → level < 256
    → NotAbove (bound_of before) after
    → (in_levels (valid_range before after) level ≡ true)
      ↔ ((level ≤ bound_of before) × NotAbove level after)
unfolding valid_range
valid_range_iff none none level h k = (λ e. ground arith, λ e. ground arith)
valid_range_iff none (some a) level h k = (λ e. ground arith, λ e. ground arith)
valid_range_iff (some b) none level h k = (λ e. ground arith, λ e. ground arith)
valid_range_iff (some b) (some a) level h k = (λ e. ground arith, λ e. ground arith)

bound_after-take-suc :
    (items : Items) (n bound : ℕ) (x : Node)
    → get_elem? items n ≡ some x
    → bound_after bound (take (suc n) items) ≡ suc x.level
bound_after-take-suc [] n bound x h = cc
bound_after-take-suc (y ∷ ys) zero bound x h = ground arith
bound_after-take-suc (y ∷ ys) (suc n) bound x h = bound_after-take-suc ys n (suc y.level) x h

bound_at :
    (items : Items) (n : ℕ)
    → n ≤ length items
    → bound_after 0 (take n items) ≡ bound_of (node_before items n)
bound_at items zero h = refl
bound_at items (suc n) h =
    let (x, e) = get_elem?-some items n (omega arith) in
    let p : suc n - 1 ≡ n = omega arith in
    let z : (suc n == 0) ≡ false = ground arith in bound_after-take-suc items n 0 x e ∙ rw (z, p, e)

head_closed : (xs : Items) (level : ℕ) → NotAbove level (get_elem? xs 0) ↔ ClosedBy level xs
head_closed [] level = (λ h. h, λ h. h)
head_closed (x ∷ xs) level = (λ h. h, λ h. h)

closed_at :
    (items : Items) (n level : ℕ)
    → NotAbove level (get_elem? items n) ↔ ClosedBy level (drop n items)
closed_at items n level =
    let e : n + 0 ≡ n = omega arith in rw (get_elem?-drop, e) at (head_closed (drop n items) level)

Nested-ClosedBy_bound : (bound : ℕ) (xs : Items) → Nested bound xs → ClosedBy bound xs
Nested-ClosedBy_bound bound [] h = tt
Nested-ClosedBy_bound bound (x ∷ xs) h = h.0

stepped :
    (items : Items) (n : ℕ)
    → Nested 0 items
    → n ≤ length items
    → NotAbove (bound_of (node_before items n)) (get_elem? items n)
stepped items n w h =
    let parts = Nested-append_right 0 (take n items) (drop n items) (rw take-append-drop w) in
    (closed_at items n _).1
      (Nested-ClosedBy_bound _ (drop n items) (rw (bound_at items n h) at parts))

accepted :
    (b : Bool)
    → ◌≡◌ {A = Fallible (Unit {0})} (if b then ok tt else err invalid_level) (ok tt)
    → b ≡ true
accepted true e = refl
accepted false e = cc

-- `check_location` accepts exactly these locations.
pub check_location_iff :
    {items : Items} (target : TargetPosition)
    → WellFormed items
    → target.level < 256
    → (check_location items target ≡ ok tt) ↔ Located items target.before target.level
unfolding check_location
check_location_iff {items} target w h =
    let n = target.before in
    let range = valid_range_iff (node_before items n) (get_elem? items n) target.level h in
    elim (Bool-cases (ltb (length items) n)) [
      | inl out ↦ rw out ((λ e. cc), λ l. absurd (ground (arith, l.in_range)))
      | inr inside ↦
          let le : n ≤ length items = ground arith in
          let levels = range (stepped items n w.nested le) in
          rw inside (
            (λ e.
                let both = levels.0 (accepted _ e) in
                record {
                  in_range = le;
                  under_bound = rw (bound_at items n le) both.0;
                  closes = (closed_at items n target.level).0 both.1;
                }),
            λ l.
                let both = levels.1 (
                  rw (bound_at items n le) at l.under_bound,
                  (closed_at items n target.level).1 l.closes,
                ) in
                rw both,
          )
    ]

pub check_location-Safe :
    (items : Items) (target : TargetPosition) → Safe (λ _. Unit {0}) (check_location items target)
unfolding check_location
check_location-Safe items target = ground arith
