-- ===== src/MockPi/Polling.antt =====
-- `pollTouchState` of src/MockPiPrograms.cpp while it records.
use hardware.Base.{
  ℕ, zero, suc, ◌+◌, ◌<◌, ◌≤◌, ◌≡◌, ◌≢◌, refl, sym, ap, ◌∙◌, subst, Bool, true, false, not, ◌&&◌,
  List, ◌∷◌, ◌==◌, ==_ne, if◌then◌else◌, Bool-cases, inl, inr, arith,
}
use hardware.Command.Machine.{Parts}
use hardware.Touch.Controller.{is_touched}
use hardware.MockPi.State.{recording, MockPi, World, put_pi, world_millis, Unseen, UnseenLaws}
use hardware.MockPi.Touch.{
  bit_at, touched_from, touched_in, on_touch_down, is_recording, on_touch_up, edge_at, edges_from,
  poll_touch_state,
}
use hardware.MockPi.Masks.{bit_at-zero, bit_at-touched_from}
use hardware.MockPi.Recording.{
  note, note_all, pressed, Records, record_position-Records, record_position-frame,
}

bit_at-ne : (previous i : ℕ) → bit_at previous i ≡ true → previous ≢ 0
bit_at-ne previous i h e = cc (sym (bit_at-zero i) ∙ (ap (λ m. bit_at m i) (sym e) ∙ h))

module _ {p : Parts} (u : Unseen p) (laws : UnseenLaws p u) where
  -- A world that records, has these positions, and has sent nothing since `old`.
  record Recorder (seen : List ℕ) (old w : World p) : Type 0 where
    state : w.pi.state ≡ recording
    records : Records seen w.pi
    held : w.pi.currently_touched ≡ old.pi.currently_touched
    sent : w.sent ≡ old.sent

  on_touch_down-Recorder :
      (c : ℕ) (seen : List ℕ) (old w : World p)
      → Recorder seen old w
      → Recorder (note seen c) old (on_touch_down u c w)
  unfolding on_touch_down touched_in
  on_touch_down-Recorder c seen old w r =
      let pi₁ : MockPi = record w.pi { last_touch_time = (world_millis p w).0 } in
      let w₁ = put_pi p pi₁ (world_millis p w).1 in
      let frame = record_position-frame c pi₁ in
      let kept : Records seen pi₁ = record {
        holds = r.records.holds;
        count = r.records.count;
        room = r.records.room;
        distinct = r.records.distinct;
      } in
      let there : Recorder (note seen c) old (touched_in u recording c w₁) = record {
        state = ap (λ (x : MockPi). x.state) frame ∙ r.state;
        records = record_position-Records c seen pi₁ kept;
        held = ap (λ (x : MockPi). x.currently_touched) frame ∙ r.held;
        sent = r.sent;
      } in
      subst (λ s. Recorder (note seen c) old (touched_in u s c w₁)) (sym r.state) there

  -- While something was held at the last poll, a release changes nothing.
  on_touch_up-held : (c : ℕ) (w : World p) → w.pi.currently_touched ≢ 0 → on_touch_up u c w ≡ w
  unfolding on_touch_up
  on_touch_up-held c w h =
      let held : (w.pi.currently_touched == 0) ≡ false = ==_ne _ 0 h in
      elim (Bool-cases (is_recording u w.pi.state)) [
        | inl on ↦ rw (on, held) refl
        | inr off ↦ rw off refl
      ]

  module _ (new previous : ℕ) (old : World p)
      (together : previous ≢ 0 → old.pi.currently_touched ≢ 0) where
    edge_at-Recorder :
        (i : ℕ) (seen : List ℕ) (w : World p)
        → i < 25
        → Recorder seen old w
        → Recorder
            (if bit_at new i && not (bit_at previous i) then note seen (b'A' + i) else seen)
            old
            (edge_at u new previous i w)
    unfolding edge_at
    edge_at-Recorder i seen w l r =
        up (bit_at previous i && not (bit_at new i)) (λ h. ground (arith, h))
          (down (bit_at new i && not (bit_at previous i)))
      where
        down :
            (b : Bool)
            → Recorder
                (if b then note seen (b'A' + i) else seen)
                old
                (if b then on_touch_down u (u.index_to_letter i) w else w)
        down false = r
        down true =
            subst (λ c. Recorder (note seen c) old (on_touch_down u (u.index_to_letter i) w))
              (laws.letter i l) (on_touch_down-Recorder (u.index_to_letter i) seen old w r)

        up :
            {found : List ℕ} {w₁ : World p} (b : Bool)
            → (b ≡ true → bit_at previous i ≡ true)
            → Recorder found old w₁
            → Recorder found old (if b then on_touch_up u (u.index_to_letter i) w₁ else w₁)
        up false h s = s
        up {found} {w₁} true h s =
            let held : w₁.pi.currently_touched ≢ 0 =
              λ e. together (bit_at-ne previous i (h refl)) (sym s.held ∙ e) in
            subst (Recorder found old) (sym (on_touch_up-held (u.index_to_letter i) w₁ held)) s

    note_all-if :
        (b : Bool) (seen : List ℕ) (c : ℕ) (cs : List ℕ)
        → note_all (if b then note seen c else seen) cs ≡ note_all seen (if b then c ∷ cs else cs)
    note_all-if true seen c cs = refl
    note_all-if false seen c cs = refl

    edges_from-Recorder :
        (n i : ℕ) (seen : List ℕ) (w : World p)
        → n + i ≤ 25
        → Recorder seen old w
        → Recorder (note_all seen (pressed n new previous i)) old (edges_from u n new previous i w)
    unfolding edges_from
    edges_from-Recorder zero i seen w l r = r
    edges_from-Recorder (suc n) i seen w l r =
        let b = bit_at new i && not (bit_at previous i) in
        let w₁ = edge_at u new previous i w in
        let rest = pressed n new previous (i + 1) in
        subst (λ s. Recorder s old (edges_from u n new previous (i + 1) w₁))
          (note_all-if b seen (b'A' + i) rest)
          (edges_from-Recorder n (i + 1) (if b then note seen (b'A' + i) else seen) w₁ (omega arith)
            (edge_at-Recorder i seen w (omega arith) r))

  -- What a poll does while it records.
  pub record Polled (seen : List ℕ) (w w' : World p) : Type 0 where
    pub state : w'.pi.state ≡ recording
    pub records :
        Records (note_all seen (pressed 25 w'.pi.currently_touched w.pi.previous_touched 0)) w'.pi
    pub sent : w'.sent ≡ w.sent
    pub same : w'.pi.previous_touched ≡ w'.pi.currently_touched
    pub touched : (k : ℕ) → k < 25 → bit_at w'.pi.currently_touched k ≡ is_touched w.machine.touch k

  -- While it records, with a touch controller, and with something held at the last poll if a bit of the
  -- previous mask is set: `pollTouchState` notes every sensor touched since the last poll, in the order of the
  -- letters, unless it has been noted, never one twice and 25 at most. It sends nothing and stays in
  -- RECORDING, whatever is released. Both masks have the bits of the sensors touched now, so the
  -- next poll finds the same condition.
  pub poll_touch_state-Records :
      (w : World p) (seen : List ℕ)
      → w.pi.has_touch ≡ true
      → w.pi.state ≡ recording
      → (w.pi.previous_touched ≢ 0 → w.pi.currently_touched ≢ 0)
      → Records seen w.pi
      → Polled seen w (poll_touch_state u w)
  unfolding poll_touch_state
  poll_touch_state-Records w seen linked on together r =
      let new = touched_from 25 w.machine.touch 0 0 in
      let previous = w.pi.previous_touched in
      let before : Recorder seen w w = record {
        state = on;
        records = r;
        held = refl;
        sent = refl;
      } in
      let after = edges_from-Recorder new previous w together 25 0 seen w (omega arith) before in
      let w₁ = edges_from u 25 new previous 0 w in
      let w₂ = put_pi p (record w₁.pi { previous_touched = new; currently_touched = new }) w₁ in
      let polled : Polled seen w w₂ = record {
        state = after.state;
        records = record {
          holds = after.records.holds;
          count = after.records.count;
          room = after.records.room;
          distinct = after.records.distinct;
        };
        sent = after.sent;
        same = refl;
        touched = bit_at-touched_from w.machine.touch;
      } in
      subst (λ (b : Bool). Polled seen w (if not b then w else w₂)) (sym linked) polled
