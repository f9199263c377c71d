-- ===== src/Frontier/Ranks.antt =====
-- The entries of an axis in the order of the policy, and how many are better than one of them.
use simple_evolution.Prelude.{
  ℕ, zero, suc, ◌+◌, ◌≤◌, String, Bool, true, false, not, ◌&&◌, ◌||◌, string_eq, ◌≡◌, refl, List,
  [], ◌∷◌, all, any, take, count, length, order_by, insert_by, arith, ltb, all_mono, count-order_by,
  length-order_by, any-order_by, if◌then◌else◌,
}
use simple_evolution.Prelude.Int.{ℤ}
use simple_evolution.Frontier.Axis.{better}
use simple_evolution.Frontier.Policy.{entry_before, backwards, sorted_by}

abbrev pub Entries : Type 0
Entries = List (String × ℤ)

-- How many entries are better than a value.
abbrev pub rank : Bool → Entries → ℤ → ℕ
rank lower es v = count (λ o. better lower o.1 v) es

-- None of the entries is better than a value.
abbrev unbeaten : Bool → Entries → ℤ → Bool
unbeaten lower es v = all (λ o. not (better lower o.1 v)) es

-- None of the entries is better than one before it.
pub ranked : Bool → Entries → Bool
ranked lower [] = true
ranked lower (e ∷ es) = unbeaten lower es e.1 && ranked lower es

all-insert_by :
    (p : String × ℤ → Bool) (b : String × ℤ → String × ℤ → Bool) (x : String × ℤ) (xs : Entries)
    → all p (insert_by b x xs) ≡ p x && all p xs
all-insert_by p b x [] = refl
all-insert_by p b x (y ∷ ys) = ground (arith, all-insert_by p b x ys)

before-unbeaten :
    (x y z : String × ℤ)
    → entry_before y x ≡ false
    → not (better true z.1 y.1) ≡ true
    → not (better true z.1 x.1) ≡ true
unfolding entry_before
before-unbeaten x y z h k = ground (arith, h, k)

before-not_worse : (x y : String × ℤ) → entry_before y x ≡ true → better true x.1 y.1 ≡ false
unfolding entry_before
before-not_worse x y h = ground (arith, h)

not_before : (x y : String × ℤ) → entry_before y x ≡ false → better true y.1 x.1 ≡ false
unfolding entry_before
not_before x y h = ground (arith, h)

unbeaten-first :
    (x y : String × ℤ) (es : Entries)
    → entry_before y x ≡ false
    → unbeaten true es y.1 ≡ true
    → unbeaten true es x.1 ≡ true
unbeaten-first x y es h k =
    all_mono (λ o. not (better true o.1 y.1)) (λ o. not (better true o.1 x.1))
      (λ z. before-unbeaten x y z h) es k

ranked-insert_by :
    (x : String × ℤ) (es : Entries)
    → ranked true es ≡ true
    → ranked true (insert_by entry_before x es) ≡ true
unfolding ranked
ranked-insert_by x [] h = refl
ranked-insert_by x (y ∷ ys) h = ground (
  arith,
  h,
  before-not_worse x y,
  not_before x y,
  all-insert_by (λ o. not (better true o.1 y.1)) entry_before x ys,
  ranked-insert_by x ys (ground (arith, h)),
  unbeaten-first x y ys,
)

ranked-order_by : (es : Entries) → ranked true (order_by entry_before es) ≡ true
unfolding ranked
ranked-order_by [] = refl
ranked-order_by (e ∷ es) = ranked-insert_by e (order_by entry_before es) (ranked-order_by es)

-- None of the first entries is less than one of the second.
above : Entries → Entries → Bool
above es acc = all (λ e. unbeaten false acc e.1) es

-- What is taken off the front of the one is put before the other.
above-cons :
    (x : String × ℤ) (es acc : Entries)
    → unbeaten true es x.1 ≡ true
    → above es acc ≡ true
    → above es (x ∷ acc) ≡ true
unfolding above
above-cons x [] acc h k = refl
above-cons x (e ∷ es) acc h k =
    ground (arith, h, k, above-cons x es acc (ground (arith, h)) (ground (arith, k)))

ranked-backwards :
    (es acc : Entries)
    → ranked true es ≡ true
    → ranked false acc ≡ true
    → above es acc ≡ true
    → ranked false (backwards es acc) ≡ true
unfolding ranked above
ranked-backwards [] acc h r k = r
ranked-backwards (e ∷ es) acc h r k =
    ranked-backwards es (e ∷ acc) (ground (arith, h)) (ground (arith, r, k))
      (above-cons e es acc (ground (arith, h)) (ground (arith, k)))

above-none : (es : Entries) → above es [] ≡ true
unfolding above
above-none [] = refl
above-none (e ∷ es) = above-none es

pub ranked-sorted_by : (lower : Bool) (es : Entries) → ranked lower (sorted_by lower es) ≡ true
unfolding sorted_by ranked
ranked-sorted_by true es = ranked-order_by es
ranked-sorted_by false es =
    ranked-backwards (order_by entry_before es) [] (ranked-order_by es) refl
      (above-none (order_by entry_before es))

module _ (p : String × ℤ → Bool) where
  count-backwards : (es acc : Entries) → count p (backwards es acc) ≡ count p es + count p acc
  count-backwards [] acc = omega arith
  count-backwards (e ∷ es) acc = omega (arith, count-backwards es (e ∷ acc))

  any-backwards : (es acc : Entries) → any p (backwards es acc) ≡ any p es || any p acc
  any-backwards [] acc = refl
  any-backwards (e ∷ es) acc = ground (arith, any-backwards es (e ∷ acc))

  pub count-sorted_by : (lower : Bool) (es : Entries) → count p (sorted_by lower es) ≡ count p es
  unfolding sorted_by
  count-sorted_by true es = count-order_by p entry_before es
  count-sorted_by false es =
      omega (arith, count-backwards (order_by entry_before es) [], count-order_by p entry_before es)

  pub any-sorted_by : (lower : Bool) (es : Entries) → any p (sorted_by lower es) ≡ any p es
  unfolding sorted_by
  any-sorted_by true es = any-order_by p entry_before es
  any-sorted_by false es =
      ground (arith, any-backwards (order_by entry_before es) [], any-order_by p entry_before es)

length-backwards : (es acc : Entries) → length (backwards es acc) ≡ length es + length acc
length-backwards [] acc = omega arith
length-backwards (e ∷ es) acc = omega (arith, length-backwards es (e ∷ acc))

pub length-sorted_by : (lower : Bool) (es : Entries) → length (sorted_by lower es) ≡ length es
unfolding sorted_by
length-sorted_by true es = length-order_by entry_before es
length-sorted_by false es =
    omega (arith, length-backwards (order_by entry_before es) [], length-order_by entry_before es)

rank-unbeaten :
    (lower : Bool) (es : Entries) (v : ℤ) → unbeaten lower es v ≡ true → rank lower es v ≡ 0
rank-unbeaten lower [] v h = refl
rank-unbeaten lower (e ∷ es) v h = ground (arith, h, rank-unbeaten lower es v)

better_itself : (lower : Bool) (v : ℤ) → better lower v v ≡ false
better_itself lower v = ground arith

-- The entries before are at most `m`, so of the first `n` each has less than `m + n` better ones.
rank-take_from :
    (lower : Bool) (n m : ℕ) (es : Entries) (c : String × ℤ → ℕ)
    → ((e : String × ℤ) → c e ≤ m)
    → ranked lower es ≡ true
    → all (λ e. ltb (c e + rank lower es e.1) (m + n)) (take n es) ≡ true
unfolding ranked
rank-take_from lower zero m es c below h = refl
rank-take_from lower (suc n) m [] c below h = refl
rank-take_from lower (suc n) m (e ∷ es) c below h = ground (
  arith,
  below e,
  better_itself lower e.1,
  rank-unbeaten lower es e.1 (ground (arith, h)),
  all_mono
      (λ o. ltb ((c o + (if better lower e.1 o.1 then 1 else 0)) + rank lower es o.1) ((m + 1) + n))
      (λ o. ltb (c o + rank lower (e ∷ es) o.1) (m + suc n)) (λ o k. ground (arith, k)) (take n es)
      (rank-take_from lower n (m + 1) es (λ o. c o + (if better lower e.1 o.1 then 1 else 0))
        (λ o. ground (arith, below o)) (ground (arith, h))),
)

-- Of the first `n` each has less than `n` better ones.
pub rank-take :
    (lower : Bool) (n : ℕ) (es : Entries)
    → ranked lower es ≡ true
    → all (λ e. ltb (rank lower es e.1) n) (take n es) ≡ true
rank-take lower n es h =
    all_mono (λ e. ltb (0 + rank lower es e.1) (0 + n)) (λ e. ltb (rank lower es e.1) n)
      (λ e k. ground (arith, k)) (take n es)
      (rank-take_from lower n 0 es (λ e. 0) (λ e. omega arith) h)
