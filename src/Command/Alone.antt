-- ===== src/Command/Alone.antt =====
-- A tick of the queue of long-running commands of src/CommandController.cpp when one of them is there.
use hardware.Base.{
  ℕ, zero, suc, ◌+◌, ◌<◌, ◌≤◌, ◌≡◌, ◌≢◌, refl, sym, ap, ◌∙◌, Bool, true, false, List, ◌==◌, ==_iff,
  get_or, set, get_or-set_ne, if◌then◌else◌, Bool-cases, inl, inr, arith,
}
use hardware.Command.Machine.{Parts, Machine, QueuedCommand, no_command}
use hardware.Command.Tick.{tick_command, tick_from}

module _ (p : Parts) where
  -- Every entry but the one in slot `i` is free.
  abbrev pub Alone : ℕ → List QueuedCommand → Type 0
  Alone i qcs = (k : ℕ) → k ≢ i → (get_or qcs k no_command).active ≡ false

  -- A tick is the tick of the only command.
  tick_from-free :
      (rounds k : ℕ) (m : Machine p)
      → ((j : ℕ) → k ≤ j → (get_or m.commands j no_command).active ≡ false)
      → tick_from p rounds k m ≡ m
  unfolding tick_from
  tick_from-free zero k m free = refl
  tick_from-free (suc rounds) k m free =
      rw (free k (omega arith)) (tick_from-free rounds (k + 1) m (λ j l. free j (omega arith)))

  tick_from-here :
      (rounds i : ℕ) (m : Machine p)
      → Alone i (tick_command p i m).commands
      → (get_or m.commands i no_command).active ≡ true
      → tick_from p (suc rounds) i m ≡ tick_command p i m
  unfolding tick_from
  tick_from-here rounds i m still active =
      ap (λ (b : Bool). tick_from p rounds (i + 1) (if b then tick_command p i m else m)) active
      ∙ tick_from-free rounds (i + 1) (tick_command p i m) (λ j l. still j (omega arith))

  pub tick_from-Alone :
      (rounds k i : ℕ) (m : Machine p)
      → Alone i m.commands
      → Alone i (tick_command p i m).commands
      → (get_or m.commands i no_command).active ≡ true
      → k ≤ i
      → i < k + rounds
      → tick_from p rounds k m ≡ tick_command p i m
  unfolding tick_from
  tick_from-Alone zero k i m alone still active l r = absurd (omega arith)
  tick_from-Alone (suc rounds) k i m alone still active l r = elim (Bool-cases (k == i)) [
    | inl here ↦
        ap (λ j. tick_from p (suc rounds) j m) ((==_iff k i).0 here)
        ∙ tick_from-here rounds i m still active
    | inr before ↦
        let k_ne_i : k ≢ i = ground (arith, before) in
        ap (λ (b : Bool). tick_from p rounds (k + 1) (if b then tick_command p k m else m))
          (alone k k_ne_i)
        ∙ tick_from-Alone rounds (k + 1) i m alone still active (omega arith) (omega arith)
  ]

  pub Alone-set :
      (i : ℕ) (qcs : List QueuedCommand) (qc : QueuedCommand) → Alone i qcs → Alone i (set qcs i qc)
  Alone-set i qcs qc alone k h =
      ap (λ (q : QueuedCommand). q.active) (get_or-set_ne qcs i k qc no_command (λ e. h (sym e)))
      ∙ alone k h

  pub Alone-if :
      {i : ℕ} (b : Bool) (x y : Machine p)
      → Alone i x.commands
      → Alone i y.commands
      → Alone i (if b then x else y).commands
  Alone-if true x y v w = v
  Alone-if false x y v w = w
