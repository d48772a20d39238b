-- ===== src/Scheduler/System.antt =====
-- A device over time: a scheduler with its medium and its backend, the calls that it takes, and
-- restarts. A restart may come at any time, also in the middle of a tick, after the write to the
-- medium and before the call of `start`; the backend may change between any two calls.
use openathan.Base.{◌≡◌, ◌⊎◌, Bool, Option, none, some, List, [], ◌∷◌, All}
use openathan.Playback.{Playback}
use openathan.Storage.{Store}
use openathan.Scheduler.{
  EventKey, Event, ClockSample, DayCalculator, DurableState, Scheduler, Settings,
}
use openathan.Scheduler.Machine.{
  constructed, configure, block_storage, allow_playback, begin, cancel_skip, tick, skip_next,
}

pub record System (S P : Type 0) : Type 0 where
  pub scheduler : Scheduler
  pub medium : S
  pub backend : P

-- An identity under which an event is remembered.
abbrev pub Names : Event → EventKey → Type 0
Names e k = (e.key ≡ k) ⊎ (e.shared_with ≡ some k)

-- Two events that share no identity.
abbrev pub Apart : Event → Event → Type 0
Apart d e = (k : EventKey) → Names d k → Names e k → ⊥

-- Later events come first.
abbrev pub AllApart : List Event → Type 0
AllApart [] = Unit
AllApart (e ∷ es) = All (λ d. Apart d e) es × AllApart es

abbrev pub add_request : Option Event → List Event → List Event
add_request none es = es
add_request (some e) es = e ∷ es

module _ {S P : Type 0} (store : Store S DurableState) (playback : Playback P)
    (calculate : DayCalculator) where
  -- A device that starts from a medium.
  unfoldable pub booted : S → P → Settings → System S P
  booted s p settings = record {
    scheduler = (begin store constructed s settings).1;
    medium = s;
    backend = p;
  }

  abbrev pub request_of : System S P → ClockSample → Option Event
  request_of x now = (tick store playback calculate x.scheduler x.medium x.backend now).3

  abbrev pub after_tick : System S P → ClockSample → System S P
  after_tick x now = record {
    scheduler = (tick store playback calculate x.scheduler x.medium x.backend now).0;
    medium = (tick store playback calculate x.scheduler x.medium x.backend now).1;
    backend = (tick store playback calculate x.scheduler x.medium x.backend now).2;
  }

  abbrev pub skip_request : System S P → ClockSample → Option Event → Option Event
  skip_request x now expected =
      (skip_next store playback calculate x.scheduler x.medium x.backend now expected).4

  abbrev pub after_skip : System S P → ClockSample → Option Event → System S P
  after_skip x now expected = record {
    scheduler = (skip_next store playback calculate x.scheduler x.medium x.backend now expected).1;
    medium = (skip_next store playback calculate x.scheduler x.medium x.backend now expected).2;
    backend = (skip_next store playback calculate x.scheduler x.medium x.backend now expected).3;
  }

  abbrev pub after_cancel : System S P → System S P
  after_cancel x = record {
    scheduler = (cancel_skip store x.scheduler x.medium).1;
    medium = (cancel_skip store x.scheduler x.medium).2;
    backend = x.backend;
  }

  -- One call, the event for which it called `start`, and the device after it.
  pub data Step (x : System S P) : Option Event → System S P → Type 0 where
    ticks : (now : ClockSample) → Step x (request_of x now) (after_tick x now)
    skips :
        (now : ClockSample) (expected : Option Event)
        → Step x (skip_request x now expected) (after_skip x now expected)
    cancels : Step x none (after_cancel x)
    configures :
        (settings : Settings)
        → Step x none (record x { scheduler = (configure x.scheduler settings).1 })
    blocks : Step x none (record x { scheduler = block_storage x.scheduler })
    allows :
        (allowed : Bool) → Step x none (record x { scheduler = allow_playback x.scheduler allowed })
    changes : (p : P) → Step x none (record x { backend = p })
    restarts : (p : P) (settings : Settings) → Step x none (booted x.medium p settings)
    loses_power :
        (now : ClockSample) (p : P) (settings : Settings)
        → Step x none (booted (after_tick x now).medium p settings)

  pub data Runs (x : System S P) : List Event → System S P → Type 0 where
    start : Runs x [] x
    step :
        {es : List Event} {o : Option Event} {y z : System S P}
        → Runs x es y
        → Step y o z
        → Runs x (add_request o es) z
