-- ===== src/Manager/State.antt =====
-- service.go: services, jobs and the manager. The options of a service are of a type `D`, and what
-- a configuration holds for a job, before it is decoded, of a type `R`.
use chrome.Base.{Bool, true, false, List, [], ◌∷◌, ◌++◌, Option, none, some, if◌then◌else◌}
use chrome.Base.Text.{Text}
use chrome.Base.Dict.{lookup, insert, keys}
use chrome.Conn.Options.{ConnOptions}
use chrome.Relay.Options.{RelayOptions}

-- `LoadEvent` with its options, `LoadedEvent`, and the nil event.
pub data Event (D : Type 0) : Type 0 where
  loads : D → Event D
  loaded nothing : Event D

pub record Service : Type 0 where
  pub name : Text
  pub has_options : Bool

-- A job, with the events that it received since it was started. `ended` is `job.Err() != nil`.
pub record Job (D : Type 0) : Type 0 where
  pub ended : Bool
  pub received : List (Event D)

-- What the manager did to the jobs, in order.
pub data Action (D : Type 0) : Type 0 where
  stops : Text → Action D
  starts : Text → Action D
  sends : Text → Event D → Action D

pub record Manager (D : Type 0) : Type 0 where
  pub services : List (Text × Service)
  pub jobs : List (Text × Job D)
  pub conn_opts : ConnOptions
  pub relay_opts : RelayOptions
  pub trace : List (Action D)

module _ {D : Type 0} where
  unfoldable pub new_job : Job D
  new_job = record { ended = false; received = [] }

  unfoldable pub add_service : Service → Manager D → Manager D
  add_service s m = record m { services = insert s.name s m.services }

  unfoldable pub did : Action D → Manager D → Manager D
  did a m = record m { trace = m.trace ++ (a ∷ []) }

  module _ (quits : Text → Event D → Bool) where
    -- A job that has ended receives nothing. Another one receives the event, or ends before it does:
    -- that is for the job to say.
    unfoldable pub tell : Text → Event D → Job D → Job D
    tell name ev job =
        if job.ended
        then job
        else if quits name ev
        then record job { ended = true }
        else record job { received = job.received ++ (ev ∷ []) }

    abbrev pub told : Text → Event D → Option (Job D) → Manager D → Manager D
    told name ev none m = m
    told name ev (some job) m =
        did (sends name ev) (record m { jobs = insert name (tell name ev job) m.jobs })

    -- `SendEvent` on the job with this name; the zero job takes no event.
    unfoldable pub send_event : Text → Event D → Manager D → Manager D
    unfolding did tell
    send_event name ev m = told name ev (lookup name m.jobs) m

    unfoldable pub send_all : Event D → List Text → Manager D → Manager D
    send_all ev [] m = m
    send_all ev (name ∷ names) m = send_all ev names (send_event name ev m)

    abbrev pub tell_all : Event D → Manager D → Manager D
    tell_all ev m = send_all ev (keys m.jobs) m
