-- ===== src/Rollout/Router/Written.antt =====
-- The events of canary_router.go that are written to ClickHouse, each by a goroutine of its own.
use ropus.Common.{ℕ, ◌≤◌, ◌≡◌, refl, sym, ◌∙◌, Bool, true, false, List, [], ◌∷◌, ◌++◌}
use mathlib.Core.List.{Perm, perm_middle, perm_append_singleton}
use mathlib.Core.List.Perm
use ropus.Rollout.Router.{CanaryRouter, CanaryRolloutEvent, log_rollout_event, end_logging}

-- Each event starts from the percentage that the one before it has left.
abbrev pub IsChain : {F : Type 0} → ℕ → List (CanaryRolloutEvent F) → ℕ → Type 0
IsChain p [] q = p ≡ q
IsChain p (e ∷ es) q = (e.previous_percentage ≡ p) × IsChain e.new_percentage es q

IsChain-snoc :
    {F : Type 0} (p q : ℕ) (es : List (CanaryRolloutEvent F)) (e : CanaryRolloutEvent F)
    → IsChain p es q
    → e.previous_percentage ≡ q
    → IsChain p (es ++ e ∷ []) e.new_percentage
IsChain-snoc p q [] e c h = (h ∙ sym c, refl)
IsChain-snoc p q (x ∷ es) e c h = (c.0, IsChain-snoc x.new_percentage q es e c.1 h)

-- All changes of the percentage, each from where the one before it ended; they are, in whatever
-- order, the rows, the events still to be written, and those whose insert has made no row.
abbrev pub HasTrail : {F : Type 0} → ℕ → CanaryRouter F → Type 0
HasTrail {F} start cr =
    (changes : List (CanaryRolloutEvent F)) × (lost : List (CanaryRolloutEvent F)) × IsChain start
      changes cr.config.percentage
    × Perm changes (cr.rows ++ (cr.logging ++ lost))

pub record IsTrailed {F : Type 0} (start : ℕ) (cr : CanaryRouter F) : Type 0 where
  pub in_range : cr.config.percentage ≤ 100
  pub listens : cr.has_client ≡ true
  pub trail : HasTrail start cr

-- One more change, whose event is the first of those to be written.
perm_started :
    {A : Type 0} (e : A) (changes rows waiting : List A)
    → Perm changes (rows ++ waiting)
    → Perm (changes ++ e ∷ []) (rows ++ (e ∷ waiting))
perm_started e changes rows waiting p =
    Perm.trans (perm_append_singleton e changes)
      (Perm.trans (Perm.cons e p) (Perm.symm (perm_middle rows waiting)))

-- An event is moved from those to be written to the rows, and to the lost ones.
perm_inserted :
    {A : Type 0} (rows before : List A) (e : A) (after lost changes : List A)
    → Perm changes (rows ++ ((before ++ (e ∷ after)) ++ lost))
    → Perm changes ((e ∷ rows) ++ ((before ++ after) ++ lost))
perm_inserted rows before e after lost changes p = Perm.trans p (
    Perm.trans (Perm.append_left rows (Perm.append_right lost (perm_middle before after)))
      (perm_middle rows ((before ++ after) ++ lost)))

perm_lost :
    {A : Type 0} (rows before : List A) (e : A) (after lost changes : List A)
    → Perm changes (rows ++ ((before ++ (e ∷ after)) ++ lost))
    → Perm changes (rows ++ ((before ++ after) ++ (e ∷ lost)))
perm_lost rows before e after lost changes p = Perm.trans p (
    Perm.append_left rows (
      Perm.trans (Perm.append_right lost (perm_middle before after))
        (Perm.symm (perm_middle (before ++ after) lost))))

pub log-IsTrailed :
    {F : Type 0} (start : ℕ) (e : CanaryRolloutEvent F) (cr cr' : CanaryRouter F)
    → IsTrailed start cr
    → cr'.has_client ≡ cr.has_client
    → cr'.logging ≡ cr.logging
    → cr'.rows ≡ cr.rows
    → e.previous_percentage ≡ cr.config.percentage
    → e.new_percentage ≡ cr'.config.percentage
    → cr'.config.percentage ≤ 100
    → IsTrailed start (log_rollout_event e cr')
unfolding log_rollout_event
log-IsTrailed start e cr cr' h same_client same_logging same_rows before after fits =
    let (changes, lost, chain, perm) = h.trail in
    rw (same_client ∙ h.listens) (record {
      in_range = fits;
      listens = refl;
      trail = (
        changes ++ e ∷ [],
        lost,
        rw (← after) (IsChain-snoc start cr.config.percentage changes e chain before),
        rw (same_logging, same_rows) (perm_started e changes cr.rows (cr.logging ++ lost) perm),
      );
    })

pub end_logging-IsTrailed :
    {F : Type 0} (start : ℕ) (before : List (CanaryRolloutEvent F)) (e : CanaryRolloutEvent F)
    (after : List (CanaryRolloutEvent F)) (is_inserted : Bool) (cr : CanaryRouter F)
    → cr.logging ≡ before ++ (e ∷ after)
    → IsTrailed start cr
    → IsTrailed start (end_logging before e after is_inserted cr)
unfolding end_logging
end_logging-IsTrailed start before e after true cr q h =
    let (changes, lost, chain, perm) = h.trail in
    record {
      in_range = h.in_range;
      listens = h.listens;
      trail =
          (changes, lost, chain, perm_inserted cr.rows before e after lost changes (rw q at perm));
    }
end_logging-IsTrailed start before e after false cr q h =
    let (changes, lost, chain, perm) = h.trail in
    record {
      in_range = h.in_range;
      listens = h.listens;
      trail =
          (changes, e ∷ lost, chain, perm_lost cr.rows before e after lost changes (rw q at perm));
    }
