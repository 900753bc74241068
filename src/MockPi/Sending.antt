-- ===== src/MockPi/Sending.antt =====
-- The commands that the Mock Pi sends, by src/MockPiPrograms.cpp, to a valid machine: which lines, and
-- with which identifiers.
use hardware.Base.{
  ℕ, suc, subst, ◌≡◌, refl, sym, ap, ◌∙◌, Bool, true, false, some, List, [], ◌∷◌, ◌++◌, append-nil,
  append_assoc, if◌then◌else◌,
}
use hardware.Base.Words.{add32}
use hardware.Command.LexerLaws.{LexerLaws}
use hardware.Command.Machine.{Parts, Machine}
use hardware.Command.Steps.{IsValid}
use hardware.Command.Tick.{inject_command}
use hardware.Command.Completed.{inject_command_ends}
use hardware.MockPi.State.{MockPi, World}
use hardware.MockPi.Update.{line_with_pos, send_command, send_command_with_pos, send_all}

-- The identifier after one command for each position.
abbrev pub ids_after : List ℕ → ℕ → ℕ
ids_after [] id = id
ids_after (pos ∷ positions) id = ids_after positions (add32 id 1)

module _ (p : Parts) where
  -- One line for each position, with the identifiers from `id` on.
  abbrev pub lines_of : List ℕ → List ℕ → ℕ → List (List ℕ)
  lines_of action [] id = []
  lines_of action (pos ∷ positions) id =
      line_with_pos p action pos id ∷ lines_of action positions (add32 id 1)

  -- The clock is not part of what makes a machine valid.
  pub calls-IsValid : (m : Machine p) (n : ℕ) → IsValid p m → IsValid p (record m { calls = n })
  calls-IsValid m n v = record {
    rx = v.rx;
    led = v.led;
    events = v.events;
    linked = v.linked;
    commands = v.commands;
  }

  -- What is left of the Mock Pi when commands have been sent: they, the time, and the identifier.
  pub record Sent (lines : List (List ℕ)) (id : ℕ) (w w' : World p) : Type 0 where
    pub time : ℕ
    pub pi : w'.pi ≡ record w.pi { last_action_time = time; command_id = id }
    pub sent : w'.sent ≡ w.sent ++ lines
    pub valid : IsValid p w'.machine

  pub Sent-then :
      {xs ys : List (List ℕ)} {i j : ℕ} {w w₁ w₂ : World p}
      → Sent xs i w w₁
      → Sent ys j w₁ w₂
      → Sent (xs ++ ys) j w w₂
  Sent-then {xs} {ys} {j = j} {w} s t =
      let told = λ (pi : MockPi). record pi { last_action_time = t.time; command_id = j } in
      record {
        time = t.time;
        pi = t.pi ∙ ap told s.pi;
        sent = t.sent ∙ (ap (λ l. l ++ ys) s.sent ∙ append_assoc w.sent xs ys);
        valid = t.valid;
      }

  module _ (laws : LexerLaws p.lexer) where
    inject-ends :
        (b : Bool) (cmd : List ℕ) (m : Machine p)
        → IsValid p m
        → (m' : Machine p) × ((if b then inject_command p cmd m else some m) ≡ some m')
          × IsValid p m'
    inject-ends true cmd m v = inject_command_ends p laws cmd m v
    inject-ends false cmd m v = (m, refl, v)

    pub send_command-Sent :
        (cmd : List ℕ) (id : ℕ) (w : World p)
        → IsValid p w.machine
        → (w' : World p) × (send_command p cmd (record w { pi = record w.pi { command_id = id } })
            ≡ some w')
          × Sent (cmd ∷ []) id w w'
    unfolding send_command
    send_command-Sent cmd id w v =
        let (m, e, v') = inject-ends w.pi.has_command cmd w.machine v in
        (
          record w {
            pi = record w.pi { command_id = id; last_action_time = m.clock m.calls };
            machine = record m { calls = suc m.calls };
            sent = w.sent ++ (cmd ∷ []);
          },
          rw e refl,
          record {
            time = m.clock m.calls;
            pi = refl;
            sent = refl;
            valid = calls-IsValid m (suc m.calls) v';
          },
        )

    pub send_all-Sent :
        (action positions : List ℕ) (w : World p)
        → IsValid p w.machine
        → (w' : World p) × (send_all p action positions w ≡ some w')
          × Sent
              (lines_of action positions w.pi.command_id)
              (ids_after positions w.pi.command_id)
              w
              w'
    unfolding send_all send_command_with_pos
    send_all-Sent action [] w v = (
      w,
      refl,
      record { time = w.pi.last_action_time; pi = refl; sent = sym (append-nil w.sent); valid = v },
    )
    send_all-Sent action (pos ∷ positions) w v =
        let id = w.pi.command_id in
        let (w₁, e₁, s₁) = send_command-Sent (line_with_pos p action pos id) (add32 id 1) w v in
        let (w₂, e₂, s₂) = send_all-Sent action positions w₁ s₁.valid in
        let known : w₁.pi.command_id ≡ add32 id 1 = ap (λ pi. pi.command_id) s₁.pi in
        let s₃ =
          subst (λ k. Sent (lines_of action positions k) (ids_after positions k) w₁ w₂) known s₂ in
        (w₂, rw (send_all, e₁) e₂, Sent-then s₁ s₃)
