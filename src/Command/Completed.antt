-- ===== src/Command/Completed.antt =====
-- `processCompletedLines` and `injectCommand` of src/CommandController.cpp end, and keep the machine
-- valid.
use hardware.Base.{
  ℕ, zero, suc, ◌+◌, ◌<◌, ◌≤◌, ◌≡◌, refl, sym, ap, ◌∙◌, Bool, true, false, Option, some, List, [],
  ◌∷◌, leb, ◌==◌, if◌then◌else◌, length, length-drop, drop, leb→le, Bool-cases, inl, inr, arith,
}
use hardware.Base.Words.{codes}
use hardware.EventQueue.Emit.{error_event, queue_error}
use hardware.Command.LexerLaws.{LexerLaws}
use hardware.Command.Parse.{Parsed, accepted, rejected, deref, has_prefix}
use hardware.Command.ParseEnds.{parse_line_ends}
use hardware.Command.Rx.{Rx, pending, is_newline, extract_line}
use hardware.Command.Ring as Ring
use hardware.Command.Lines.{any_newline, without_newlines, after, extract}
use hardware.Command.Extract.{extract_line_refines}
use hardware.Command.Machine.{Parts, Machine, error}
use hardware.Command.Steps.{IsValid, Step-enqueue}
use hardware.Command.Answers.{execute_command-answers}
use hardware.Command.Tick.{
  run_parsed, run_line, process_line, process_completed_lines, inject_command,
}

length-without_newlines : (bs : List ℕ) → length (without_newlines bs) ≤ length bs
length-without_newlines [] = omega arith
length-without_newlines (c ∷ bs) = ground (arith, length-without_newlines bs)

length-after : (bs : List ℕ) → any_newline bs ≡ true → length (after bs) < length bs
length-after [] h = ground (arith, h)
length-after (c ∷ bs) h = elim (Bool-cases (is_newline c)) [
  | inl newline ↦ rw newline (omega (arith, length-without_newlines bs))
  | inr other ↦ rw other (omega (arith, length-after bs (rw other at h)))
]

length-drop_64 : (bs : List ℕ) → 64 ≤ length bs → length (drop 64 bs) < length bs
length-drop_64 [] h = absurd (omega arith)
length-drop_64 (c ∷ bs) h = omega (arith, length-drop 63 bs)

-- A line that is found takes bytes away.
length-extract : (bs : List ℕ) → (extract bs).found ≡ true → length (extract bs).waiting < length bs
length-extract bs h = elim (Bool-cases (any_newline bs)) [
  | inl ends ↦ rw ends (length-after bs ends)
  | inr open_line ↦ elim (Bool-cases (leb 64 (length bs))) [
    | inl long ↦ rw (open_line, long) (length-drop_64 bs (leb→le _ _ long))
    | inr short ↦ absurd (ground (arith, rw (open_line, short) at h))
  ]
]

-- The ring after a line has been found holds fewer bytes.
pending-extract_line :
    (r : Rx)
    → Ring.IsValid r
    → Ring.IsValid (extract_line r).1
      × ((extract_line r).0 ≡ true → pending (extract_line r).1 < pending r)
pending-extract_line r v =
    let (e, v') = extract_line_refines r v in
    (
      v',
      λ found.
          let fewer = length-extract (Ring.bytes r) (sym (ap (λ x. x.found) e) ∙ found) in
          let left = ap (λ x. length x.waiting) e in
          omega (arith, fewer, left, Ring.length-bytes r, Ring.length-bytes (extract_line r).1),
    )

module _ (p : Parts) (laws : LexerLaws p.lexer) where
  -- Running a line ends, and leads to a valid machine that has read no serial bytes.
  run_line_ends :
      (line : List ℕ) (m : Machine p)
      → IsValid p m
      → (m' : Machine p) × (run_line p line m ≡ some m') × IsValid p m' × (m'.rx ≡ m.rx)
  unfolding run_line run_parsed queue_error
  run_line_ends line m v =
      let (parsed, e) = parse_line_ends p.env p.lexer laws (length line + 1) line (omega arith) in
      let (valid, kept) = ran parsed in (run_parsed p parsed m, rw (run_line, e) refl, valid, kept)
    where
      ran :
          (parsed : Parsed)
          → IsValid p (run_parsed p parsed m) × ((run_parsed p parsed m).rx ≡ m.rx)
      ran (accepted cmd) = let s = execute_command-answers p cmd m v in (s.valid, s.rx_kept)
      ran (rejected reason id) =
          let s = Step-enqueue p m (error_event reason id) v refl in (s.valid, s.rx_kept)

  -- A handler that ends, in a valid machine, with as many bytes waiting.
  record Ends (m : Machine p) (o : Option (Machine p)) : Type 0 where
    result : Machine p
    ended : o ≡ some result
    valid : IsValid p result
    waiting : pending result.rx ≡ pending m.rx

  Ends-if :
      (b : Bool) {m : Machine p} {x y : Option (Machine p)}
      → Ends m x
      → Ends m y
      → Ends m (if b then x else y)
  Ends-if true h k = h
  Ends-if false h k = k

  too_long-Ends :
      (m : Machine p)
      → IsValid p m
      → Ends m (
          some (
            error p
              (codes "line_too_long")
              p.env.no_command_id
              (record m { rx = record m.rx { overflow = false } })))
  unfolding pending queue_error
  too_long-Ends m v =
      let m₁ : Machine p = record m { rx = record m.rx { overflow = false } } in
      let e = error_event (codes "line_too_long") p.env.no_command_id in
      let w : IsValid p m₁ = record {
        rx = record {
          slots = v.rx.slots;
          head_in = v.rx.head_in;
          tail_in = v.rx.tail_in;
          index_in = v.rx.index_in;
          index_at = v.rx.index_at;
        };
        led = v.led;
        events = v.events;
        linked = v.linked;
        commands = v.commands;
      } in
      record {
        result = error p (codes "line_too_long") p.env.no_command_id m₁;
        ended = refl;
        valid = (Step-enqueue p m₁ e w refl).valid;
        waiting = refl;
      }

  process_line-Ends : (m : Machine p) → IsValid p m → Ends m (process_line p m)
  unfolding process_line
  process_line-Ends m v =
      let line = p.lexer.skip_whitespace m.rx.line in
      let (m', e, w, kept) = run_line_ends line m v in
      Ends-if m.rx.overflow (too_long-Ends m v) (
        Ends-if (deref line == 0) (record { result = m; ended = refl; valid = v; waiting = refl })
          (record { result = m'; ended = e; valid = w; waiting = ap pending kept }))

  -- Each line takes bytes, so as many rounds as bytes wait, and one more, are enough.
  pub process_completed_lines_ends :
      (fuel : ℕ) (m : Machine p)
      → IsValid p m
      → pending m.rx < fuel
      → (m' : Machine p) × (process_completed_lines p fuel m ≡ some m') × IsValid p m'
  unfolding process_completed_lines
  process_completed_lines_ends zero m v h = absurd (omega arith)
  process_completed_lines_ends (suc fuel) m v h =
      let (ring, fewer) = pending-extract_line m.rx v.rx in
      let m₁ : Machine p = record m { rx = (extract_line m.rx).1 } in
      let v₁ : IsValid p m₁ = record {
        rx = ring;
        led = v.led;
        events = v.events;
        linked = v.linked;
        commands = v.commands;
      } in
      elim (Bool-cases (extract_line m.rx).0) [
        | inr none_left ↦ (m₁, rw (process_completed_lines, none_left) refl, v₁)
        | inl found ↦
            let one = process_line-Ends m₁ v₁ in
            rw (process_completed_lines, found, one.ended)
              (process_completed_lines_ends fuel one.result one.valid
                (omega (arith, one.waiting, fewer found, h)))
      ]

  pub inject_command_ends :
      (line : List ℕ) (m : Machine p)
      → IsValid p m
      → (m' : Machine p) × (inject_command p line m ≡ some m') × IsValid p m'
  unfolding inject_command
  inject_command_ends line m v =
      let rest = if has_prefix (codes "PI> ") line then drop 4 line else line in
      let (m', e, w, kept) = run_line_ends rest m v in
      let ends : Ends m (inject_command p line m) =
        Ends-if (deref line == 0) (record { result = m; ended = refl; valid = v; waiting = refl })
          (record { result = m'; ended = e; valid = w; waiting = ap pending kept }) in
      (ends.result, ends.ended, ends.valid)
