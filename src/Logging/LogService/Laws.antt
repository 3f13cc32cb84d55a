-- ===== src/Logging/LogService/Laws.antt =====
-- The map of loggers.
use libni.Base.{
  ℕ, ◌≡◌, ◌≢◌, refl, arith, true, false, List, [], ◌∷◌, Option-cases, ◌⊎◌, Bool-cases, inl, inr,
}
use libni.Logging.Logger
use libni.Logging.Logger.{Logger}
use libni.Logging.LogService.{same_name, LogService, find, add_logger, found, logger_not_found, get}

same_name_refl : (xs : List ℕ) → same_name xs xs ≡ true
unfolding same_name
same_name_refl [] = refl
same_name_refl (x ∷ xs) = ground (arith, same_name_refl xs)

same_name_eq : (xs ys : List ℕ) → same_name xs ys ≡ true → xs ≡ ys
unfolding same_name
same_name_eq [] [] e = refl
same_name_eq [] (y ∷ ys) e = ground arith
same_name_eq (x ∷ xs) [] e = ground arith
same_name_eq (x ∷ xs) (y ∷ ys) e = grind (arith, same_name_eq xs ys)

-- Either the name is taken: then `add_logger` reports false and changes nothing. Or it is free: then
-- it reports true, and the name gives the new logger, connected to the bus of the service. In both
-- cases every other name gives what it gave.
pub add_logger_lem :
    (name other : List ℕ) (l : Logger) (s : LogService)
    → other ≢ name
    → (((old : Logger) × (get name s ≡ found old) × (add_logger name l s ≡ (false, s)))
        ⊎ ((get name s ≡ logger_not_found name)
            × ((add_logger name l s).0 ≡ true)
            × (get name (add_logger name l s).1 ≡ found (Logger.connect l))))
      × (get other (add_logger name l s).1 ≡ get other s)
unfolding add_logger get find
add_logger_lem name other l s ne = elim (Option-cases (find name s.m_loggers)) [
  | inl e ↦ (
    inr (
      rw (e, get) refl,
      rw (e, add_logger) refl,
      rw (e, same_name_refl name, add_logger, get) refl,
    ),
    rw (e, different, add_logger, get) refl,
  )
  | inr p ↦ (inl (p.0, rw (p.1, get) refl, rw (p.1, add_logger) refl), rw (p.1, add_logger) refl)
]
  where
    different : same_name other name ≡ false
    different = elim (Bool-cases (same_name other name)) [
      | inl e ↦ absurd (ne (same_name_eq other name e))
      | inr e ↦ e
    ]
