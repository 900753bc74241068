-- ===== src/Command/WellFormed.antt =====
-- What `parseLine` of src/CommandController.cpp can answer: a command that is complete, or one of three errors.
use hardware.Base.{
  ℕ, zero, suc, ◌-◌, ◌+◌, ◌*◌, ◌%◌, ◌^◌, ◌<◌, ◌≡◌, ◌≢◌, ◌⊎◌, refl, Bool, true, false, not, ◌&&◌,
  Option, none, some, List, [], ◌∷◌, ltb, ◌==◌, length, drop, arith, Bool-cases, inl, inr, subst,
  if◌then◌else◌,
}
use hardware.Base.Words.{codes}
use hardware.EventQueue.{Env}
use hardware.Command.Actions.{Lexer, parse_action, action_requires_position}
use hardware.Command.LexerLaws.{LexerLaws, upper}
use hardware.Command.ParseEnds.{Round-cases, parse_line_ends}
use hardware.Command.Parse.{
  ParsedCommand, Parsed, accepted, rejected, finish, Round, go_on, fail, deref, is_digit,
  parse_digits, id_round, position_round, token_round, parse_tokens, parse_line, is_invalid,
  strip_prefix, fresh_command,
}

parse_digits-lt : (id : ℕ) (b : Bool) (s : List ℕ) → id < 2 ^ 32 → (parse_digits id b s).0 < 2 ^ 32
unfolding parse_digits
parse_digits-lt id b [] h = h
parse_digits-lt id b (c ∷ s) h = elim (Bool-cases (is_digit c)) [
  | inl digit ↦ rw digit (parse_digits-lt ((id * 10 + (c - b'0')) % 2 ^ 32) true s (omega arith))
  | inr other ↦ rw other h
]

module _ (env : Env) (lex : Lexer) where
  -- The position of a command, and its index: those of a letter that has one, or none.
  unfoldable pub Place : Bool → ℕ → ℕ → Type 0
  Place true position index =
      (c : ℕ) × (position ≡ upper c) × (index ≡ lex.char_to_index c) × (index ≢ 255)
  Place false position index = (position ≡ 0) × (index ≡ 255)

  unfoldable pub Number : Bool → ℕ → Type 0
  Number true id = id < 2 ^ 32
  Number false id = id ≡ env.no_command_id

  pub record WellFormed (cmd : ParsedCommand) : Type 0 where
    pub known : is_invalid env lex cmd.action ≡ false
    pub place : Place cmd.has_position cmd.position cmd.position_index
    pub number : Number cmd.has_id cmd.id

  -- An error of the parser.
  pub record Refused (reason : List ℕ) (id : ℕ) : Type 0 where
    pub reasons :
        (reason ≡ codes "bad_format")
        ⊎ (reason ≡ codes "unknown_action")
        ⊎ (reason ≡ codes "unknown_position")
    pub answered : (id < 2 ^ 32) ⊎ (id ≡ env.no_command_id)

  unfoldable pub Sound : Parsed → Type 0
  Sound (accepted cmd) =
      WellFormed cmd
      × ((action_requires_position cmd.action && not cmd.has_position) ≡ false)
      × (cmd.valid ≡ true)
  Sound (rejected reason id) = Refused reason id

  SoundIf : Option Parsed → Type 0
  SoundIf none = Unit
  SoundIf (some parsed) = Sound parsed

  Kept : Round env lex → Type 0
  Kept (go_on cmd ptr) = WellFormed cmd
  Kept (fail reason id) = Refused reason id

  command_id_of-answered :
      (b : Bool) (id : ℕ)
      → Number b id
      → ((if b then id else env.no_command_id) < 2 ^ 32)
        ⊎ ((if b then id else env.no_command_id) ≡ env.no_command_id)
  unfolding Number
  command_id_of-answered true id h = inl h
  command_id_of-answered false id h = inr refl

  id_round-Kept :
      (cmd : ParsedCommand) (s : List ℕ) → WellFormed cmd → Kept (id_round env lex cmd s)
  unfolding id_round Kept Number
  id_round-Kept cmd s w = elim (Bool-cases (not (parse_digits 0 false s).1)) [
    | inl bare ↦ rw bare (record { reasons = inl refl; answered = inr refl })
    | inr digits ↦ rw digits (record {
      known = w.known;
      place = w.place;
      number = parse_digits-lt 0 false s (omega arith);
    })
  ]

  position_round-Kept :
      (cmd : ParsedCommand) (ptr : List ℕ) → WellFormed cmd → Kept (position_round env lex cmd ptr)
  unfolding position_round Kept Place
  position_round-Kept cmd ptr w =
      let token_len = length ptr - length (lex.find_token_end ptr) in
      let c = deref ptr in
      let told = command_id_of-answered cmd.has_id cmd.id w.number in
      elim (Bool-cases (token_len == 1)) [
        | inl one ↦ elim (Bool-cases (lex.char_to_index c == 255)) [
          | inl unknown ↦ rw (one, unknown) (record { reasons = inr (inr refl); answered = told })
          | inr known ↦
              rw (one, known)
                (record {
                  known = w.known;
                  place = (c, refl, refl, ground arith);
                  number = w.number;
                })
        ]
        | inr not_one ↦ elim (Bool-cases (ltb 1 token_len)) [
          | inl many ↦ rw (not_one, many) (record { reasons = inl refl; answered = told })
          | inr none_there ↦ rw (not_one, none_there) w
        ]
      ]

  token_round-Kept :
      (cmd : ParsedCommand) (ptr : List ℕ) → WellFormed cmd → Kept (token_round env lex cmd ptr)
  unfolding token_round
  token_round-Kept cmd ptr w = elim (Bool-cases (deref ptr == b'#')) [
    | inl hash ↦ rw hash (id_round-Kept cmd (drop 1 ptr) w)
    | inr other ↦ rw other (position_round-Kept cmd ptr w)
  ]

  finish-Sound : (cmd : ParsedCommand) → WellFormed cmd → Sound (finish env lex cmd)
  unfolding finish Sound
  finish-Sound cmd w =
      elim (Bool-cases (action_requires_position cmd.action && not cmd.has_position)) [
        | inl missing ↦ rw missing (record {
          reasons = inl refl;
          answered = command_id_of-answered cmd.has_id cmd.id w.number;
        })
        | inr complete ↦
            rw complete
              (record { known = w.known; place = w.place; number = w.number }, complete, refl)
      ]

  module _ (laws : LexerLaws lex) where
    parse_tokens-Sound :
        (fuel : ℕ) (cmd : ParsedCommand) (ptr : List ℕ)
        → WellFormed cmd
        → SoundIf (parse_tokens env lex fuel cmd ptr)
    unfolding parse_tokens SoundIf Kept Sound
    parse_tokens-Sound zero cmd ptr w = tt
    parse_tokens-Sound (suc fuel) cmd ptr w = elim (Bool-cases (deref ptr == 0)) [
      | inl at_end ↦ rw (parse_tokens, at_end) (finish-Sound cmd w)
      | inr more ↦
          let kept = token_round-Kept cmd ptr w in
          elim (Round-cases env lex laws (token_round env lex cmd ptr)) [
            | inl (cmd', ptr', e) ↦
                rw (parse_tokens, more, e) (parse_tokens-Sound fuel cmd' ptr' (subst Kept e kept))
            | inr (reason, id, e) ↦ rw (parse_tokens, more, e) (subst Kept e kept)
          ]
    ]

    parse_line-SoundIf : (fuel : ℕ) (line : List ℕ) → SoundIf (parse_line env lex fuel line)
    unfolding parse_line SoundIf Sound Place Number
    parse_line-SoundIf fuel line =
        let start : List ℕ = strip_prefix env lex line in
        let action_end : List ℕ = lex.find_token_end start in
        let action_len = length start - length action_end in
        let action = parse_action lex start action_len in
        elim (Bool-cases (action_len == 0)) [
          | inl no_action ↦ rw no_action (record { reasons = inl refl; answered = inr refl })
          | inr some_action ↦ elim (Bool-cases (is_invalid env lex action)) [
            | inl unknown ↦
                rw (some_action, unknown) (record { reasons = inr (inl refl); answered = inr refl })
            | inr known ↦
                rw (some_action, known)
                  (parse_tokens-Sound fuel (record (fresh_command env lex) { action = action })
                    (lex.skip_whitespace action_end)
                    (record { known = known; place = (refl, refl); number = refl }))
          ]
        ]

    -- `parseLine` answers every line, when it has more rounds than the line has characters. A command that
    -- it accepts has an action, and a position if the action needs one; the position is the upper case of a
    -- character whose index it has, and which is not 255, or there is none; the identifier has 32 bits, or
    -- there is none. An error is bad_format, unknown_action or unknown_position, with such an identifier or
    -- NO_COMMAND_ID.
    pub parse_line-Sound :
        (fuel : ℕ) (line : List ℕ)
        → length line < fuel
        → (parsed : Parsed) × (parse_line env lex fuel line ≡ some parsed) × Sound parsed
    unfolding SoundIf
    parse_line-Sound fuel line h =
        let (parsed, e) = parse_line_ends env lex laws fuel line h in
        (parsed, e, subst SoundIf e (parse_line-SoundIf fuel line))
