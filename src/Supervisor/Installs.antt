-- ===== src/Supervisor/Installs.antt =====
-- What an install leaves in the table of limits, and which names it reports.
use simple_evolution.Prelude.{
  ℕ, String, Bool, true, false, not, ◌≡◌, refl, Option, none, some, List, [], ◌∷◌, ◌==◌, string_eq,
  arith, map, select, member, is_unique, eq_iff, if◌then◌else◌,
}
use simple_evolution.Json.{Json, Dict}
use simple_evolution.Db.Rows.{RunLimit}
use simple_evolution.Db.State.{World}
use simple_evolution.Db.Exec.{done, after}
use simple_evolution.Supervisor.Events.{installed, replace_limit, install_one, install_all}

-- A limit that is there with another value.
abbrev pub differs : Option String → String → Bool
differs none value = false
differs (some old) value = not (old == value)

-- What a limit is after an install: the given value, or what it was.
abbrev pub overridden : Option String → Option String → Option String
overridden none old = old
overridden (some given) old = some given

module _ (encode : Json → String) where
  -- The names of the given limits that are there with another value, in their order.
  abbrev pub differing : Dict → List RunLimit → List String
  differing limits ls =
      map (λ l. l.0) (select (λ l. differs (installed l.0 ls) (encode l.1)) limits)

  abbrev pub given : String → Dict → Option String
  given n [] = none
  given n ((name, v) ∷ rest) = if name == n then some (encode v) else given n rest

installed-replace :
    (n name value : String) (now : ℕ) (ls : List RunLimit)
    → installed n (replace_limit name value now ls)
      ≡ (if name == n then some value else installed n ls)
unfolding installed replace_limit
installed-replace n name value now [] = refl
installed-replace n name value now (l ∷ ls) = ground (
  arith,
  installed-replace n name value now ls,
  eq_iff l.name name,
  eq_iff l.name n,
  eq_iff name n,
)

module _ (encode : Json → String) where
  installed-install_one :
      (n name value : String) (w : World)
      → installed n
          (after (install_one encode name value (installed name w.run_limits) w)).run_limits
        ≡ (if name == n then some value else installed n w.run_limits)
  unfolding install_one
  installed-install_one n name value w = go (installed name w.run_limits) refl
    where
      go :
          (o : Option String)
          → installed name w.run_limits ≡ o
          → installed n (after (install_one encode name value o w)).run_limits
            ≡ (if name == n then some value else installed n w.run_limits)
      go none e = installed-replace n name value (w.clock w.readings) w.run_limits
      go (some old) e = ground (
        arith,
        e,
        eq_iff old value,
        eq_iff name n,
        installed-replace n name value (w.clock w.readings) w.run_limits,
      )

  install_one-reports :
      (name value : String) (old : Option String) (w : World)
      → install_one encode name value old w
        ≡ done
            (if differs old value then name ∷ [] else [])
            (after (install_one encode name value old w))
  unfolding install_one
  install_one-reports name value none w = refl
  install_one-reports name value (some old) w = ground arith

  differing-other :
      (name value : String) (limits : Dict) (us ls : List RunLimit)
      → member name (map (λ l. l.0) limits) ≡ false
      → ((n : String) → installed n us ≡ (if name == n then some value else installed n ls))
      → differing encode limits us ≡ differing encode limits ls
  differing-other name value [] us ls h same = refl
  differing-other name value ((k, v) ∷ rest) us ls h same = ground (
    arith,
    h,
    same k,
    eq_iff name k,
    eq_iff k name,
    differing-other name value rest us ls (ground (arith, h)) same,
  )

  given-none :
      (n : String) (limits : Dict)
      → member n (map (λ l. l.0) limits) ≡ false
      → given encode n limits ≡ none
  given-none n [] h = refl
  given-none n ((k, v) ∷ rest) h = ground (arith, h, given-none n rest (ground (arith, h)))

  -- Everything an install does to the limits.
  abbrev pub Installs : Dict → World → Type 0
  Installs limits w =
      (v : World) × (install_all encode limits w ≡ done (differing encode limits w.run_limits) v)
      × ((n : String)
          → installed n v.run_limits
            ≡ overridden (given encode n limits) (installed n w.run_limits))

  pub install_all-Installs :
      (limits : Dict) (w : World) → is_unique (map (λ l. l.0) limits) ≡ true → Installs limits w
  unfolding install_all
  install_all-Installs [] w h = (w, refl, λ n. refl)
  install_all-Installs ((name, x) ∷ rest) w h =
      let u = after (install_one encode name (encode x) (installed name w.run_limits) w) in
      let unnamed : member name (map (λ l. l.0) rest) ≡ false = ground (arith, h) in
      let (v, runs, left) = install_all-Installs rest u (ground (arith, h)) in
      let same : differing encode rest u.run_limits ≡ differing encode rest w.run_limits =
        differing-other name (encode x) rest u.run_limits w.run_limits unnamed
          (λ n. installed-install_one n name (encode x) w) in
      (
        v,
        ground (
          arith,
          install_one-reports name (encode x) (installed name w.run_limits) w,
          runs,
          same,
        ),
        λ n. ground (
          arith,
          left n,
          installed-install_one n name (encode x) w,
          eq_iff name n,
          given-none name rest unnamed,
        ),
      )
