-- ===== src/Command/Steps.antt =====
-- What the handlers of src/CommandController.cpp keep, and the events that they add to the queue.
use hardware.Base.{
  ℕ, ◌≡◌, refl, ap, ◌∙◌, true, Bool, false, if◌then◌else◌, List, [], ◌∷◌, ◌++◌, length, length-set,
  take, take-append_take, append_assoc,
}
use hardware.EventQueue.{Event, enqueue}
use hardware.EventQueue.Fifo
use hardware.Led.Strip.{LedController}
use hardware.Led.Invariant as Led
use hardware.Command.Ring as Ring
use hardware.Command.Machine.{Parts, Machine, QueuedCommand, put_command}

module _ (p : Parts) where
  -- The parts of the machine are valid, and the touch controller has been given the event queue.
  pub record IsValid (m : Machine p) : Type 0 where
    pub rx : Ring.IsValid m.rx
    pub led : Led.IsValid p.pixels m.led
    pub events : Fifo.IsValid m.events
    pub linked : m.touch.has_event_queue ≡ true
    pub commands : length m.commands ≡ 8

  -- A handler leads from `m` to `m'`: it keeps the machine valid, reads no serial bytes, and adds the
  -- events `es` to the queue as far as they fit.
  pub record Step (m m' : Machine p) (es : List Event) : Type 0 where
    pub valid : IsValid m'
    pub rx_kept : m'.rx ≡ m.rx
    pub answered : Fifo.contents m'.events ≡ take 16 (Fifo.contents m.events ++ es)

  pub Step-trans :
      {m m' m'' : Machine p} {es fs : List Event}
      → Step m m' es
      → Step m' m'' fs
      → Step m m'' (es ++ fs)
  Step-trans {m} {es} {fs} a b = record {
    valid = b.valid;
    rx_kept = b.rx_kept ∙ a.rx_kept;
    answered =
        b.answered
        ∙ (ap (λ xs. take 16 (xs ++ fs)) a.answered
            ∙ (take-append_take 16 (Fifo.contents m.events ++ es) fs
                ∙ ap (take 16) (append_assoc (Fifo.contents m.events) es fs)));
  }

  -- Two branches.
  pub Step-if :
      (b : Bool) {m x y : Machine p} {es fs : List Event}
      → Step m x es
      → Step m y fs
      → Step m (if b then x else y) (if b then es else fs)
  Step-if true h k = h
  Step-if false h k = k

  -- A handler that queues nothing.
  pub Step-silent :
      {m : Machine p} (m' : Machine p)
      → IsValid m'
      → m'.rx ≡ m.rx
      → m'.events ≡ m.events
      → Step m m' []
  Step-silent {m} m' v r e = record {
    valid = v;
    rx_kept = r;
    answered = Fifo.contents_kept v.events ∙ ap (λ q. take 16 (Fifo.contents q ++ [])) e;
  }

  -- A handler that queues one event and does nothing else.
  pub Step-enqueue :
      (m : Machine p) (e : Event)
      → IsValid m
      → Fifo.IsLive e
      → Step m (record m { events = (enqueue m.events e).1 }) (e ∷ [])
  Step-enqueue m e v l =
      let (queued, v') = Fifo.enqueue-take e v.events l in
      record {
        valid = record {
          rx = v.rx;
          led = v.led;
          events = v';
          linked = v.linked;
          commands = v.commands;
        };
        rx_kept = refl;
        answered = queued;
      }

  -- One that changes the LEDs only.
  pub Step-led :
      (m : Machine p) (l : LedController p.pixels)
      → IsValid m
      → Led.IsValid p.pixels l
      → Step m (record m { led = l }) []
  Step-led m l v w =
      Step-silent (record m { led = l })
        (record { rx = v.rx; led = w; events = v.events; linked = v.linked; commands = v.commands })
        refl refl

  -- One that writes an entry of the command queue.
  pub Step-put_command :
      (m : Machine p) (i : ℕ) (qc : QueuedCommand) → IsValid m → Step m (put_command p i qc m) []
  Step-put_command m i qc v =
      Step-silent (put_command p i qc m)
        (record {
          rx = v.rx;
          led = v.led;
          events = v.events;
          linked = v.linked;
          commands = length-set m.commands i qc ∙ v.commands;
        })
        refl refl
