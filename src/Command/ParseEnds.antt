-- ===== src/Command/ParseEnds.antt =====
-- `parseLine` of src/CommandController.cpp ends: each round of its loop takes characters.
use hardware.Base.{
  ℕ, zero, suc, ◌+◌, ◌-◌, ◌*◌, ◌%◌, ◌^◌, ◌<◌, ◌≤◌, ◌≡◌, ◌≢◌, ◌⊎◌, refl, Bool, true, false, not,
  ◌||◌, some, List, [], ◌∷◌, ltb, ◌==◌, length, length-drop, drop, arith, Bool-cases, inl, inr,
  subst,
}
use hardware.Command.Actions.{Lexer, parse_action}
use hardware.Command.LexerLaws.{LexerLaws, drop_while}
use hardware.Base.Words.{codes}
use hardware.EventQueue.{Env}
use hardware.Command.Parse.{
  ParsedCommand, Parsed, rejected, finish, Round, go_on, fail, deref, is_digit, parse_digits,
  id_round, position_round, token_round, parse_tokens, parse_line, is_invalid, strip_prefix,
  fresh_command, has_prefix,
}

length-drop_while : (f : ℕ → Bool) (s : List ℕ) → length (drop_while f s) ≤ length s
length-drop_while f [] = omega arith
length-drop_while f (c ∷ s) = ground (arith, length-drop_while f s)

drop_while_start : (f : ℕ → Bool) (s : List ℕ) → f 0 ≡ false → f (deref (drop_while f s)) ≡ false
drop_while_start f [] h = h
drop_while_start f (c ∷ s) h = elim (Bool-cases (f c)) [
  | inl space ↦ rw space (drop_while_start f s h)
  | inr other ↦ rw other other
]

drop_while_shorter :
    (f : ℕ → Bool) (s : List ℕ)
    → f (deref s) ≡ true
    → deref s ≢ 0
    → length (drop_while f s) < length s
drop_while_shorter f [] h ne = absurd (ne refl)
drop_while_shorter f (c ∷ s) h ne = rw h (omega (arith, length-drop_while f s))

length-parse_digits : (id : ℕ) (b : Bool) (s : List ℕ) → length (parse_digits id b s).2 ≤ length s
unfolding parse_digits
length-parse_digits id b [] = omega arith
length-parse_digits id b (c ∷ s) = elim (Bool-cases (is_digit c)) [
  | inl digit ↦
      rw digit (omega (arith, length-parse_digits ((id * 10 + (c - b'0')) % 2 ^ 32) true s))
  | inr other ↦ rw other (omega arith)
]

module _ (env : Env) (lex : Lexer) (laws : LexerLaws lex) where
  -- A round that goes on leaves a shorter string, which begins with no white space.
  Shrinks : List ℕ → Round env lex → Type 0
  Shrinks ptr (go_on cmd rest) = (length rest < length ptr) × (laws.is_space (deref rest) ≡ false)
  Shrinks ptr (fail reason id) = Unit

  skipped :
      (s ptr : List ℕ)
      → length s < length ptr
      → (length (lex.skip_whitespace s) < length ptr)
        × (laws.is_space (deref (lex.skip_whitespace s)) ≡ false)
  skipped s ptr h =
      rw (laws.skip s) (
        omega (arith, length-drop_while laws.is_space s),
        drop_while_start laws.is_space s laws.nul,
      )

  id_round-Shrinks :
      (cmd : ParsedCommand) (c : ℕ) (s : List ℕ) → Shrinks (c ∷ s) (id_round env lex cmd s)
  unfolding id_round Shrinks
  id_round-Shrinks cmd c s = elim (Bool-cases (not (parse_digits 0 false s).1)) [
    | inl bare ↦ rw bare tt
    | inr digits ↦
        rw digits (
          skipped (parse_digits 0 false s).2 (c ∷ s) (omega (arith, length-parse_digits 0 false s)))
  ]

  position_round-Shrinks :
      (cmd : ParsedCommand) (ptr : List ℕ)
      → (deref ptr == 0) ≡ false
      → laws.is_space (deref ptr) ≡ false
      → Shrinks ptr (position_round env lex cmd ptr)
  unfolding position_round Shrinks
  position_round-Shrinks cmd ptr ne word =
      let moved : length (lex.find_token_end ptr) < length ptr = rw (laws.token_end ptr) (
        drop_while_shorter (λ c. not (laws.is_space c || c == 0)) ptr (rw (word, ne) refl)
          (ground arith)) in
      let next = skipped (lex.find_token_end ptr) ptr moved in
      let token_len = length ptr - length (lex.find_token_end ptr) in
      elim (Bool-cases (token_len == 1)) [
        | inl one ↦ elim (Bool-cases (lex.char_to_index (deref ptr) == 255)) [
          | inl unknown ↦ rw (one, unknown) tt
          | inr known ↦ rw (one, known) next
        ]
        | inr not_one ↦ elim (Bool-cases (ltb 1 token_len)) [
          | inl many ↦ rw (not_one, many) tt
          | inr zero_or_one ↦ rw (not_one, zero_or_one) next
        ]
      ]

  token_round-Shrinks :
      (cmd : ParsedCommand) (ptr : List ℕ)
      → (deref ptr == 0) ≡ false
      → laws.is_space (deref ptr) ≡ false
      → Shrinks ptr (token_round env lex cmd ptr)
  unfolding token_round
  token_round-Shrinks cmd [] ne word = absurd (ground arith)
  token_round-Shrinks cmd (c ∷ s) ne word = elim (Bool-cases (c == b'#')) [
    | inl hash ↦ rw hash (id_round-Shrinks cmd c s)
    | inr other ↦ rw other (position_round-Shrinks cmd (c ∷ s) ne word)
  ]

  pub Round-cases :
      (x : Round env lex)
      → ((cmd : ParsedCommand) × (ptr : List ℕ) × (x ≡ go_on cmd ptr))
        ⊎ ((reason : List ℕ) × (id : ℕ) × (x ≡ fail reason id))
  Round-cases (go_on cmd ptr) = inl (cmd, ptr, refl)
  Round-cases (fail reason id) = inr (reason, id, refl)

  parse_tokens_ends :
      (fuel : ℕ) (cmd : ParsedCommand) (ptr : List ℕ)
      → laws.is_space (deref ptr) ≡ false
      → length ptr < fuel
      → (parsed : Parsed) × (parse_tokens env lex fuel cmd ptr ≡ some parsed)
  unfolding parse_tokens Shrinks
  parse_tokens_ends zero cmd ptr word h = absurd (omega arith)
  parse_tokens_ends (suc fuel) cmd ptr word h = elim (Bool-cases (deref ptr == 0)) [
    | inl at_end ↦ (finish env lex cmd, rw (parse_tokens, at_end) refl)
    | inr more ↦
        let shrinks = token_round-Shrinks cmd ptr more word in
        elim (Round-cases (token_round env lex cmd ptr)) [
          | inl (cmd', ptr', e) ↦
              let (shorter, word') = subst (Shrinks ptr) e shrinks in
              rw (parse_tokens, more, e)
                (parse_tokens_ends fuel cmd' ptr' word' (omega (arith, shorter, h)))
          | inr (reason, id, e) ↦ (rejected reason id, rw (parse_tokens, more, e) refl)
        ]
  ]

  length-skip : (s : List ℕ) → length (lex.skip_whitespace s) ≤ length s
  length-skip s = rw (laws.skip s) (length-drop_while laws.is_space s)

  length-token_end : (s : List ℕ) → length (lex.find_token_end s) ≤ length s
  length-token_end s =
      rw (laws.token_end s) (length-drop_while (λ c. not (laws.is_space c || c == 0)) s)

  length-strip_prefix : (line : List ℕ) → length (strip_prefix env lex line) ≤ length line
  length-strip_prefix line =
      let start : List ℕ = lex.skip_whitespace line in
      elim (Bool-cases (has_prefix (codes "PI>") (lex.skip_whitespace line))) [
        | inl prefix ↦
            rw prefix
              (omega (arith, length-skip (drop 3 start), length-drop 3 start, length-skip line))
        | inr bare ↦ rw bare (length-skip line)
      ]

  -- `parseLine` ends on every line, with a command or an error, when it has more rounds than the line
  -- has characters.
  pub parse_line_ends :
      (fuel : ℕ) (line : List ℕ)
      → length line < fuel
      → (parsed : Parsed) × (parse_line env lex fuel line ≡ some parsed)
  unfolding parse_line
  parse_line_ends fuel line h =
      let start : List ℕ = strip_prefix env lex line in
      let action_end : List ℕ = lex.find_token_end start in
      let action_len = length start - length action_end in
      let action = parse_action lex start action_len in
      elim (Bool-cases (action_len == 0)) [
        | inl no_action ↦
            (rejected (codes "bad_format") env.no_command_id, rw (parse_line, no_action) refl)
        | inr some_action ↦ elim (Bool-cases (is_invalid env lex action)) [
          | inl unknown ↦ (
            rejected (codes "unknown_action") env.no_command_id,
            rw (parse_line, some_action, unknown) refl,
          )
          | inr known ↦
              rw (some_action, known)
                (parse_tokens_ends fuel (record (fresh_command env lex) { action = action })
                  (lex.skip_whitespace action_end)
                  (rw (laws.skip action_end) (drop_while_start laws.is_space action_end laws.nul))
                  (omega (
                    arith,
                    length-skip action_end,
                    length-token_end start,
                    length-strip_prefix line,
                    h,
                  )))
        ]
      ]
