-- ===== src/Tools/VerifyFixtures/Counting.antt =====
-- Keys that occur once, event types that are counted, and amounts that say something.
use ai_quantum.Common.{
  ◌≤◌, ◌≡◌, ◌≢◌, ◌↔◌, refl, ap, sym, ◌∙◌, inl, inr, true, false, ◌||◌, List, [], ◌∷◌, map, length,
  Bool-cases, arith,
}
use ai_quantum.Common.Text.{Text, codes, text_eq_iff, lower}
use ai_quantum.Common.Eq.{Eq, eqb, eqb_refl, text_eq_instance}
use ai_quantum.Common.Set.{contains, add, contains-add, IsUnique}
use ai_quantum.Ingestion.Event.{TickDataEvent}
use ai_quantum.Tools.VerifyFixtures.{key_instance, is_missing}

-- No item is in the list twice, and none is of those seen before.
module _ {A : Type 0} ⦃e : Eq A⦄ where
  abbrev pub IsFresh : List A → List A → Type 0
  IsFresh seen [] = Unit
  IsFresh seen (x ∷ xs) = (contains x seen ≡ false) × IsFresh (add x seen) xs

  abbrev pub IsApart : List A → List A → Type 0
  IsApart seen [] = Unit
  IsApart seen (x ∷ xs) = (contains x seen ≡ false) × IsApart seen xs

  IsApart-add :
      (x : A) (seen xs : List A)
      → IsApart (add x seen) xs ↔ ((contains x xs ≡ false) × IsApart seen xs)
  unfolding contains
  IsApart-add x seen [] = ((λ h. (refl, tt)), (λ h. tt))
  IsApart-add x seen (y ∷ ys) =
      let ih = IsApart-add x seen ys in
      let c = contains-add x y seen in
      (
        λ h. (
          ground (arith, c, h.0, e.are_same_iff x y, e.are_same_iff y x, (ih.0 h.1).0),
          (ground (arith, c, h.0), (ih.0 h.1).1),
        ),
        λ h. (
          ground (arith, c, h.0, h.1.0, e.are_same_iff x y, e.are_same_iff y x),
          ih.1 (ground (arith, h.0), h.1.1),
        ),
      )

  pub IsFresh-IsUnique : (seen xs : List A) → IsFresh seen xs ↔ (IsApart seen xs × IsUnique xs)
  IsFresh-IsUnique seen [] = ((λ h. (tt, tt)), (λ h. tt))
  IsFresh-IsUnique seen (x ∷ xs) =
      let ih = IsFresh-IsUnique (add x seen) xs in
      let apart = IsApart-add x seen xs in
      (
        λ h. let (a, u) = ih.0 h.1 in let (new, rest) = apart.0 a in ((h.0, rest), (new, u)),
        λ h. (h.0.0, ih.1 (apart.1 (h.1.0, h.0.1), h.1.1)),
      )

  pub IsApart-nil : (xs : List A) → IsApart [] xs
  unfolding contains
  IsApart-nil [] = tt
  IsApart-nil (x ∷ xs) = (refl, IsApart-nil xs)

-- Three different texts are in the list.
pub record HasThree (ts : List Text) : Type 0 where
  pub x : Text
  pub y : Text
  pub z : Text
  pub has_x : contains x ts ≡ true
  pub has_y : contains y ts ≡ true
  pub has_z : contains z ts ≡ true
  pub x_y : eqb x y ≡ false
  pub x_z : eqb x z ≡ false
  pub y_z : eqb y z ≡ false

HasThree-long : (ts : List Text) → IsUnique ts → 3 ≤ length ts → HasThree ts
unfolding contains
HasThree-long [] u h = absurd (omega arith)
HasThree-long (x ∷ []) u h = absurd (omega arith)
HasThree-long (x ∷ y ∷ []) u h = absurd (omega arith)
HasThree-long (x ∷ y ∷ z ∷ ts) u h = record {
  x = x;
  y = y;
  z = z;
  has_x = ground (arith, eqb_refl x);
  has_y = ground (arith, eqb_refl y);
  has_z = ground (arith, eqb_refl z);
  x_y = ground (arith, u.0, text_eq_iff x y, text_eq_iff y x);
  x_z = ground (arith, u.0, text_eq_iff x z, text_eq_iff z x);
  y_z = ground (arith, u.1.0, text_eq_iff y z, text_eq_iff z y);
}

long-HasThree : (ts : List Text) → HasThree ts → 3 ≤ length ts
unfolding contains
long-HasThree [] t = cc t.has_x
long-HasThree (a ∷ []) t =
    ground
      (arith, t.has_x, t.has_y, t.x_y, text_eq_iff a t.x, text_eq_iff a t.y, text_eq_iff t.x t.y)
long-HasThree (a ∷ b ∷ []) t = ground (
  arith,
  t.has_x,
  t.has_y,
  t.has_z,
  t.x_y,
  t.x_z,
  t.y_z,
  text_eq_iff a t.x,
  text_eq_iff a t.y,
  text_eq_iff a t.z,
  text_eq_iff b t.x,
  text_eq_iff b t.y,
  text_eq_iff b t.z,
  text_eq_iff t.x t.y,
  text_eq_iff t.x t.z,
  text_eq_iff t.y t.z,
)
long-HasThree (a ∷ b ∷ c ∷ ts) t = omega arith

abbrev pub types_of : List TickDataEvent → List Text
types_of = map (λ (r : TickDataEvent). r.event_type)

abbrev pub types_after : List Text → List TickDataEvent → List Text
types_after types [] = types
types_after types (r ∷ rs) = types_after (add r.event_type types) rs

IsUnique-types_after :
    (types : List Text) (rs : List TickDataEvent) → IsUnique types → IsUnique (types_after types rs)
unfolding add
IsUnique-types_after types [] u = u
IsUnique-types_after types (r ∷ rs) u = elim (Bool-cases (contains r.event_type types)) [
  | inl old ↦ rw old (IsUnique-types_after types rs u)
  | inr new ↦ rw new (IsUnique-types_after (r.event_type ∷ types) rs (new, u))
]

contains-types_after :
    (k : Text) (types : List Text) (rs : List TickDataEvent)
    → contains k (types_after types rs) ≡ (contains k types || contains k (types_of rs))
unfolding contains
contains-types_after k types [] = ground arith
contains-types_after k types (r ∷ rs) =
    ground
      (arith, contains-types_after k (add r.event_type types) rs, contains-add r.event_type k types)

HasThree-same :
    (s t : List Text) → ((k : Text) → contains k s ≡ contains k t) → HasThree s → HasThree t
HasThree-same s t same h = record {
  x = h.x;
  y = h.y;
  z = h.z;
  has_x = sym (same h.x) ∙ h.has_x;
  has_y = sym (same h.y) ∙ h.has_y;
  has_z = sym (same h.z) ∙ h.has_z;
  x_y = h.x_y;
  x_z = h.x_z;
  y_z = h.y_z;
}

-- The types counted are the types there are.
pub three_types :
    (rs : List TickDataEvent) → (3 ≤ length (types_after [] rs)) ↔ HasThree (types_of rs)
unfolding contains
three_types rs =
    let same = λ (k : Text). contains-types_after k [] rs in
    (
      λ h.
          HasThree-same (types_after [] rs) (types_of rs) same
            (HasThree-long (types_after [] rs) (IsUnique-types_after [] rs tt) h),
      λ h.
          long-HasThree (types_after [] rs)
            (HasThree-same (types_of rs) (types_after [] rs) (λ k. sym (same k)) h),
    )

-- An amount that says something.
abbrev pub IsAmount : Text → Type 0
IsAmount val = (val ≢ []) × (lower val ≢ codes "nan")

pub IsAmount-is_missing : (val : Text) → (is_missing val ≡ false) ↔ IsAmount val
unfolding is_missing lower
IsAmount-is_missing val = (
  λ h. (ground (arith, text_eq_iff val []), ground (arith, text_eq_iff (lower val) (codes "nan"))),
  λ h. ground (
    arith,
    h.0,
    h.1,
    text_eq_iff val [],
    text_eq_iff val (codes "NaN"),
    text_eq_iff val (codes "nan"),
    text_eq_iff (lower val) (codes "nan"),
    ap lower,
  ),
)
