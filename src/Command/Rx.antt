-- ===== src/Command/Rx.antt =====
-- The receive ring and the line buffer of src/CommandController.cpp.
use hardware.Base.{
  ℕ, zero, suc, ◌+◌, ◌-◌, ◌%◌, Bool, true, false, ◌||◌, List, [], ◌∷◌, ◌++◌, ltb, leb, ◌==◌,
  if◌then◌else◌, get_or, set,
}
use hardware.Base.Words.{add8}
use hardware.Config.{max_line_len}

-- sizeof(m_rxBuffer)
abbrev pub rx_size : ℕ
rx_size = 128

-- `line` is m_lineBuffer[0..m_lineIndex).
pub record Rx : Type 0 where
  pub buffer : List ℕ
  pub head : ℕ
  pub tail : ℕ
  pub line : List ℕ
  pub line_index : ℕ
  pub overflow : Bool

unfoldable pub begin_rx : Rx → Rx
begin_rx r = record r { head = 0; tail = 0; line = []; line_index = 0; overflow = false }

-- The body of the loop of `pollSerial`, for one byte.
unfoldable pub receive : Rx → ℕ → Rx
receive r c =
    let next_head = (r.head + 1) % rx_size in
    if next_head == r.tail then r else record r { buffer = set r.buffer r.head c; head = next_head }

-- The bytes are those that `Serial` has available.
unfoldable pub poll_serial : Rx → List ℕ → Rx
poll_serial r [] = r
poll_serial r (c ∷ cs) = poll_serial (receive r c) cs

abbrev pub is_newline : ℕ → Bool
is_newline c = c == 10 || c == 13

-- while (pos != m_rxHead): is there a newline?
unfoldable pub has_newline : ℕ → Rx → ℕ → Bool
has_newline zero r pos = false
has_newline (suc fuel) r pos =
    let rest = has_newline fuel r ((pos + 1) % rx_size) in
    if pos == r.head then false else (if is_newline (get_or r.buffer pos 0) then true else rest)

unfoldable pub pending : Rx → ℕ
pending r = if leb r.tail r.head then r.head - r.tail else rx_size - r.tail + r.head

-- Skips the CR and LF that follow a newline.
unfoldable pub skip_newlines : ℕ → Rx → Rx
skip_newlines zero r = r
skip_newlines (suc fuel) r =
    let rest = skip_newlines fuel (record r { tail = (r.tail + 1) % rx_size }) in
    if r.tail == r.head then r else (if is_newline (get_or r.buffer r.tail 0) then rest else r)

-- A character goes to the line if there is room.
unfoldable pub put_char : Rx → ℕ → Rx
put_char r c =
    if ltb r.line_index (max_line_len - 1)
    then record r { line = r.line ++ (c ∷ []); line_index = add8 r.line_index 1 }
    else record r { overflow = true }

-- while (m_rxTail != m_rxHead): the characters up to the newline
unfoldable pub take_line : ℕ → Rx → Rx
take_line zero r = r
take_line (suc fuel) r =
    let c = get_or r.buffer r.tail 0 in
    let next = record r { tail = (r.tail + 1) % rx_size } in
    let ended = skip_newlines rx_size next in
    let rest = take_line fuel (put_char next c) in
    if r.tail == r.head then r else (if is_newline c then ended else rest)

-- Each loop takes one slot of the ring a round, so 128 rounds are enough.
unfoldable pub extract_line : Rx → Bool × Rx
extract_line r =
    let r₀ = record r { line_index = 0; line = []; overflow = false } in
    if r.head == r.tail
    then (false, r₀)
    else if has_newline rx_size r r.tail
    then (true, take_line rx_size r₀)
    else if leb max_line_len (pending r)
    then (true, record r₀ { overflow = true; tail = (r.tail + max_line_len) % rx_size })
    else (false, r₀)
