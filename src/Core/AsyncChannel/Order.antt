-- ===== src/Core/AsyncChannel/Order.antt =====
-- core/async_channel.hpp: values leave in the order in which they were pushed.
use boost_taar.Common.{
  ℕ, ◌-◌, ◌≡◌, refl, ◌∙◌, ap, sym, true, false, none, some, List, [], ◌∷◌, ◌++◌, arith, length,
  take, map, take-append-drop, append-nil, append_assoc,
}
use boost_taar.Core.AsyncChannel.Invariant.{Inv, step-Inv, fresh-Inv}
use boost_taar.Core.AsyncChannel.{
  Channel, Completion, resumed, immediate, fresh, push, trim_values, trim, close, async_receive,
  cancel, Call, pushes, trims, closes, receives, cancels, step, run,
}

module _ {ℓ} {A : Type ℓ} where
  -- The values that completions carry.
  abbrev pub delivered : List (Completion A) → List A
  delivered [] = []
  delivered (resumed id (some v) ∷ out) = v ∷ delivered out
  delivered (immediate (some v) ∷ out) = v ∷ delivered out
  delivered (resumed id none ∷ out) = delivered out
  delivered (immediate none ∷ out) = delivered out

  -- The value that a call puts in: none on a closed channel.
  abbrev pub accepted : Call A → Channel A → List A
  accepted (pushes v) s = elim s.closed [ true ↦ [] | false ↦ v ∷ [] ]
  accepted (trims max) s = []
  accepted closes s = []
  accepted receives s = []
  accepted (cancels id) s = []

  -- The values that a call takes out: those that it delivers, or that `trim` drops.
  abbrev pub removed : Call A → Channel A → List A
  removed (trims max) s = take (length s.values - max) s.values
  removed (pushes v) s = delivered (step (pushes v) s).1
  removed closes s = delivered (step closes s).1
  removed receives s = delivered (step receives s).1
  removed (cancels id) s = delivered (step (cancels id) s).1

  abbrev pub accepted_all : List (Call A) → Channel A → List A
  accepted_all [] s = []
  accepted_all (c ∷ cs) s = accepted c s ++ accepted_all cs (step c s).0

  abbrev pub removed_all : List (Call A) → Channel A → List A
  removed_all [] s = []
  removed_all (c ∷ cs) s = removed c s ++ removed_all cs (step c s).0

  delivered-none : (ws : List ℕ) → delivered (map (λ w. resumed w none) ws) ≡ []
  delivered-none [] = refl
  delivered-none (w ∷ ws) = delivered-none ws

  step_order :
      (c : Call A) (s : Channel A)
      → Inv s
      → removed c s ++ (step c s).0.values ≡ s.values ++ accepted c s
  unfolding step
  step_order (pushes v) s h = unfold push in ground (arith, append-nil s.values)
  step_order (trims max) s h =
      unfold trim trim_values in rw append-nil (take-append-drop (length s.values - max) s.values)
  step_order closes s h = unfold close in rw (delivered-none s.waiters, append-nil s.values)
  step_order receives s h = unfold async_receive in ground (arith, append-nil s.values)
  step_order (cancels id) s h = unfold cancel in ground (arith, append-nil s.values)

  run_order :
      (cs : List (Call A)) (s : Channel A)
      → Inv s
      → removed_all cs s ++ (run cs s).0.values ≡ s.values ++ accepted_all cs s
  unfolding run
  run_order [] s h = sym (append-nil s.values)
  run_order (c ∷ cs) s h =
      append_assoc (removed c s) (removed_all cs (step c s).0) _
      ∙ ap (◌++◌ (removed c s)) (run_order cs (step c s).0 (step-Inv c s h))
      ∙ sym (append_assoc (removed c s) (step c s).0.values _)
      ∙ ap (λ l. l ++ accepted_all cs (step c s).0) (step_order c s h)
      ∙ append_assoc s.values (accepted c s) _

  -- Over any history of a new channel, the values that were delivered or dropped by `trim`, in the
  -- order of the calls, and then those still queued, are the accepted values in push order.
  pub run-fresh_order :
      (cs : List (Call A)) → removed_all cs fresh ++ (run cs fresh).0.values ≡ accepted_all cs fresh
  run-fresh_order cs = run_order cs fresh fresh-Inv

  delivered-append :
      (xs ys : List (Completion A)) → delivered (xs ++ ys) ≡ delivered xs ++ delivered ys
  delivered-append [] ys = refl
  delivered-append (resumed id (some v) ∷ xs) ys = ap (◌∷◌ v) (delivered-append xs ys)
  delivered-append (resumed id none ∷ xs) ys = delivered-append xs ys
  delivered-append (immediate (some v) ∷ xs) ys = ap (◌∷◌ v) (delivered-append xs ys)
  delivered-append (immediate none ∷ xs) ys = delivered-append xs ys

  -- The history trims nothing.
  abbrev pub Untrimmed : List (Call A) → Type 0
  Untrimmed [] = Unit
  Untrimmed (trims max ∷ cs) = ⊥
  Untrimmed (pushes v ∷ cs) = Untrimmed cs
  Untrimmed (closes ∷ cs) = Untrimmed cs
  Untrimmed (receives ∷ cs) = Untrimmed cs
  Untrimmed (cancels id ∷ cs) = Untrimmed cs

  removed_all-delivered :
      (cs : List (Call A)) (s : Channel A)
      → Untrimmed cs
      → removed_all cs s ≡ delivered (run cs s).1
  unfolding run
  removed_all-delivered [] s h = refl
  removed_all-delivered (trims max ∷ cs) s h = absurd h
  removed_all-delivered (pushes v ∷ cs) s h = cc (
    delivered-append (step (pushes v) s).1 (run cs (step (pushes v) s).0).1,
    removed_all-delivered cs (step (pushes v) s).0 h,
  )
  removed_all-delivered (closes ∷ cs) s h = cc (
    delivered-append (step closes s).1 (run cs (step closes s).0).1,
    removed_all-delivered cs (step closes s).0 h,
  )
  removed_all-delivered (receives ∷ cs) s h = cc (
    delivered-append (step receives s).1 (run cs (step receives s).0).1,
    removed_all-delivered cs (step receives s).0 h,
  )
  removed_all-delivered (cancels id ∷ cs) s h = cc (
    delivered-append (step (cancels id) s).1 (run cs (step (cancels id) s).0).1,
    removed_all-delivered cs (step (cancels id) s).0 h,
  )

  -- First in, first out: over any history of a new channel with no `trim`, the values that receives
  -- complete with, in the order of completion, and then those still queued, are the accepted
  -- values in push order.
  pub run_fifo :
      (cs : List (Call A))
      → Untrimmed cs
      → delivered (run cs fresh).1 ++ (run cs fresh).0.values ≡ accepted_all cs fresh
  run_fifo cs h =
      ap (λ l. l ++ (run cs fresh).0.values) (sym (removed_all-delivered cs fresh h))
      ∙ run-fresh_order cs
