-- ===== src/Holdings/Covering.antt =====
-- What `select_from` picks covers its target, by the numbers themselves.
use silvana_book_agent.Common.{
  ℕ, ◌≡◌, ◌∙◌, ap, subst, sym, inl, inr, false, Option, none, some, List, [], ◌∷◌, ◌++◌, arith,
  Option-cases, find, reverse, All, All-reverse,
}
use silvana_book_agent.Common.Int.{pos, ◌+ℤ◌, ◌-ℤ◌, ◌≤ℤ◌, +ℤ_parts, -ℤ_parts, eq_of_parts}
use silvana_book_agent.Common.Decimal.{Decimal, Amounts, lt}
use silvana_book_agent.Holdings.{CachedHolding}
use silvana_book_agent.Holdings.Pick.{
  covers, greedy, split_last, residual_of, fits, replacement, tighten, if_covered, select_from,
}
use silvana_book_agent.Holdings.Picked.{found_picks, greedy-each, split_last-rejoined}
use silvana_book_agent.Holdings.Sums.{
  All-append_left, All-append_right, find-holds, worth, IsFund, worth-append, worth-positive,
  worth-reverse, Adds, greedy-Adds,
}

module _ (d : Decimal) (m : Amounts d) where
  open d use {Carrier, units, nought, checked_add, checked_sub}

  abbrev Holding : Type 0
  Holding = CachedHolding d

  -- Taking back the last pick leaves the worth of the others.
  rest-units :
      (rest : List Holding) (last : Holding)
      → worth d (rest ++ (last ∷ [])) -ℤ units last.amount ≡ worth d rest
  unfolding worth
  rest-units rest last =
      rw (worth-append d m rest (last ∷ []), worth)
        (ground (
          arith,
          eq_of_parts (worth d rest +ℤ (units last.amount +ℤ pos 0) -ℤ units last.amount)
              (worth d rest),
          +ℤ_parts (units last.amount) (pos 0),
          +ℤ_parts (worth d rest) (units last.amount +ℤ pos 0),
          -ℤ_parts (worth d rest +ℤ (units last.amount +ℤ pos 0)) (units last.amount),
        ))

  -- What is left to cover once the last pick is taken back.
  residual-units :
      (target total : Carrier) (rest : List Holding) (last : Holding) {residual : Carrier}
      → All (IsFund d m) (rest ++ (last ∷ []))
      → m.IsAmount target
      → m.IsAmount total
      → pos 0 ≤ℤ units target
      → units target ≤ℤ units total
      → units total ≤ℤ pos m.limit
      → units total ≡ worth d (rest ++ (last ∷ []))
      → residual_of d target total last ≡ some residual
      → units target ≤ℤ worth d rest +ℤ units residual
  unfolding residual_of
  residual-units target total rest last {residual} a tm sm tp tl sl e r =
      let lf = All-append_right (IsFund d m) rest (last ∷ []) a in
      let lp = lf.0.positive in
      let wp = worth-positive d m rest (All-append_left (IsFund d m) rest (last ∷ []) a) in
      let left : units total -ℤ units last.amount ≡ worth d rest =
        ap (λ x. x -ℤ units last.amount) e ∙ rest-units rest last in
      let low : worth d rest ≤ℤ pos m.limit =
        let under : units total -ℤ units last.amount ≤ℤ pos m.limit =
          omega (arith, -ℤ_parts (units total) (units last.amount)) in
        rw (left) at under in
      let (others, oe, ou, om) =
        m.sub_total total last.amount sm lf.0.amount (rw (left) low)
          (rw (left) (omega (arith, -ℤ_parts (pos 0) (pos m.limit)))) in
      let of_rest : units others ≡ worth d rest = ou ∙ left in
      let (res, re, ru, _) =
        m.sub_total target others tm om
          (rw (of_rest) (omega (arith, -ℤ_parts (units target) (worth d rest))))
          (rw (of_rest) (
            omega
              (arith, -ℤ_parts (units target) (worth d rest), -ℤ_parts (pos 0) (pos m.limit)))) in
      let same : res ≡ residual = ground arith in
      let ru' : units residual ≡ units target -ℤ worth d rest =
        ap units (sym same) ∙ ru ∙ ap (λ x. units target -ℤ x) of_rest in
      rw (ru') (
        omega (
          arith,
          -ℤ_parts (units target) (worth d rest),
          +ℤ_parts (worth d rest) (units target -ℤ worth d rest),
        ))

  -- A replacement is worth at least what is left to cover.
  replacement-units :
      (asc : List Holding) (target total : Carrier) (rest : List Holding) (last : Holding)
      {h : Holding}
      → replacement d asc target total rest last ≡ some h
      → (residual : Carrier) × (residual_of d target total last ≡ some residual)
        × (units residual ≤ℤ units h.amount)
  unfolding replacement
  replacement-units asc target total [] last e = cc
  replacement-units asc target total (r ∷ rest) last {h} e =
      elim (Option-cases (residual_of d target total last)) [
        | inl over ↦ ground arith
        | inr (residual, e') ↦
            let found : find (fits d residual (r ∷ rest)) asc ≡ some h = ground arith in
            (
              residual,
              e',
              ground (arith, find-holds (fits d residual (r ∷ rest)) asc {h = h} found),
            )
      ]

  -- The tighten-last pass keeps the target covered.
  tighten-covers :
      (asc : List Holding) (target total : Carrier) (picks : List Holding)
      → All (IsFund d m) picks
      → m.IsAmount target
      → m.IsAmount total
      → pos 0 ≤ℤ units target
      → units target ≤ℤ units total
      → units total ≤ℤ pos m.limit
      → units total ≡ worth d picks
      → units target ≤ℤ worth d (tighten d asc target total picks)
  unfolding tighten worth
  tighten-covers asc target total picks a tm sm tp tl sl e =
      let kept : units target ≤ℤ worth d picks = rw (e) at tl in
      elim (Option-cases (split_last d picks)) [
        | inl empty ↦ rw (empty, tighten) kept
        | inr ((rest, last), cut) ↦
            let joined : rest ++ (last ∷ []) ≡ picks = rw (cut) at (split_last-rejoined d picks) in
            elim (Option-cases (replacement d asc target total rest last)) [
              | inl keep ↦ rw (cut, keep, tighten) kept
              | inr (h, swap) ↦
                  let (residual, re, rl) =
                    replacement-units asc target total rest last {h = h} swap in
                  let c =
                    residual-units target total rest last {residual = residual}
                      (subst (All (IsFund d m)) (sym joined) a) tm sm tp tl sl
                      (e ∙ ap (worth d) (sym joined)) re in
                  rw (cut, swap, tighten, worth-append d m rest (h ∷ []), worth)
                    (omega (
                      arith,
                      +ℤ_parts (worth d rest) (units residual),
                      +ℤ_parts (units h.amount) (pos 0),
                      +ℤ_parts (worth d rest) (units h.amount +ℤ pos 0),
                    ))
            ]
      ]

  -- The loop starts from nothing, on the holdings from the largest.
  pub start-Adds :
      (asc : List Holding) (target : Carrier) (max_inputs : ℕ)
      → All (IsFund d m) asc
      → worth d asc ≤ℤ pos m.limit
      → Adds d m target max_inputs nought
          (reverse asc)
          (greedy d target max_inputs nought (reverse asc))
  start-Adds asc target max_inputs a l =
      greedy-Adds d m target max_inputs nought (reverse asc) (All-reverse (IsFund d m) asc a)
        m.nought_amount (rw (m.nought_units) (omega arith))
        (rw (m.nought_units, worth-reverse d m asc) (omega (arith, +ℤ_parts (pos 0) (worth d asc))))

  if_covered-covers :
      (asc : List Holding) (target : Carrier) (max_inputs : ℕ)
      (answer : Option (List Holding × Carrier)) (picks : List Holding)
      → m.IsAmount target
      → pos 0 ≤ℤ units target
      → All (IsFund d m) asc
      → worth d asc ≤ℤ pos m.limit
      → Adds d m target max_inputs nought (reverse asc) answer
      → All (IsFund d m) (found_picks d answer)
      → if_covered d asc target answer ≡ some picks
      → units target ≤ℤ worth d picks
  unfolding if_covered
  if_covered-covers asc target max_inputs none picks tm tp a l adds f s = absurd adds
  if_covered-covers asc target max_inputs (some (found, total)) picks tm tp a l adds f s =
      let (e, sm, le_all, _) = adds in
      let all : worth d (reverse asc) ≡ worth d asc = worth-reverse d m asc in
      let e' : units total ≡ worth d found =
        e
        ∙ rw (m.nought_units) (
            ground (
              arith,
              eq_of_parts (pos 0 +ℤ worth d found) (worth d found),
              +ℤ_parts (pos 0) (worth d found),
            )) in
      let within : worth d found ≤ℤ worth d asc = rw (all) at le_all in
      let enough : lt d total target ≡ false = ground arith in
      let same : tighten d asc target total found ≡ picks = ground arith in
      subst (λ xs. units target ≤ℤ worth d xs) same
        (tighten-covers asc target total found f tm sm tp (ground arith) (rw (e') (omega arith)) e')

  -- A selection covers what it is for. If the target and the amounts are ones that the ledger has,
  -- none is negative, and together the amounts stay in the range where sums are exact, then the
  -- picks of a selection are worth at least the target.
  pub select_from-covers :
      (asc : List (CachedHolding d)) (target : d.Carrier) (max_inputs : ℕ)
      (picks : List (CachedHolding d))
      → All (IsFund d m) asc
      → m.IsAmount target
      → pos 0 ≤ℤ d.units target
      → worth d asc ≤ℤ pos m.limit
      → select_from d asc target max_inputs ≡ some picks
      → d.units target ≤ℤ worth d picks
  unfolding select_from if_covered worth
  select_from-covers asc target max_inputs picks a tm tp l s =
      elim (Option-cases (find (covers d target) asc)) [
        | inr (h, single) ↦
            let same : h ∷ [] ≡ picks = ground arith in
            let fit = find-holds (covers d target) asc {h = h} single in
            subst (λ xs. units target ≤ℤ worth d xs) same
              (ground (arith, fit, +ℤ_parts (units h.amount) (pos 0)))
        | inl none_fits ↦
            if_covered-covers asc target max_inputs
              (greedy d target max_inputs nought (reverse asc)) picks tm tp a l
              (start-Adds asc target max_inputs a l)
              (greedy-each d (IsFund d m) target max_inputs nought (reverse asc)
                (All-reverse (IsFund d m) asc a))
              (rw (none_fits, select_from) at s)
      ]
