-- ===== src/Manager/Load.antt =====
-- service.go: `loadConfig` and `setOptions`, `StopJobs`, and which configuration `LoadFS` reads.
-- `decode` stands for the YAML library: the options of a service from what the configuration holds
-- for a job, if it has no unknown field and no wrong type.
use chrome.Base.{ℕ, Bool, true, false, List, [], ◌∷◌, Option, none, some, if◌then◌else◌}
use chrome.Base.Text.{Text}
use chrome.Base.Dict.{lookup, insert, erase, keys, is_some}
use chrome.Conn.Options.{ConnOptions}
use chrome.Relay.Options.{RelayOptions}
use chrome.Manager.Names.{is_dummy_service, find_service_name}
use chrome.Manager.State.{
  Event, loads, loaded, nothing, Service, Job, stops, starts, Manager, new_job, did, send_event,
  tell_all,
}

pub record Config (R : Type 0) : Type 0 where
  pub conn : ConnOptions
  pub relay : RelayOptions
  pub jobs : List (Text × R)

pub data Error : Type 0 where
  not_found bad_options : Error

-- `Service`: nil, `Dummy`, or a registered one.
pub data Found : Type 0 where
  missing dummy : Found
  real : Service → Found

abbrev pub found : Option Service → Found
found none = missing
found (some s) = real s

module _ {D : Type 0} where
  -- `StartService`, and the job is entered under its name.
  unfoldable pub start_job : Text → Manager D → Manager D
  unfolding did new_job
  start_job name m = did (starts name) (record m { jobs = insert name new_job m.jobs })

  -- `!ok || job.Err() != nil`
  abbrev pub is_gone : Option (Job D) → Bool
  is_gone none = true
  is_gone (some job) = job.ended

  unfoldable pub ensure_job : Text → Manager D → Manager D
  unfolding start_job
  ensure_job name m = if is_gone (lookup name m.jobs) then start_job name m else m

  -- The loops of `StopJobs`: every job is canceled and waited for, and stays in the map.
  unfoldable pub stop_jobs : List Text → Manager D → Manager D
  unfolding did
  stop_jobs [] m = m
  stop_jobs (name ∷ names) m = elim (lookup name m.jobs) [
    | none ↦ stop_jobs names m
    | some job ↦
        stop_jobs names
          (did (stops name) (record m { jobs = insert name (record job { ended = true }) m.jobs }))
  ]

module _ {D R : Type 0} where
  -- A job that the configuration lacks is canceled, waited for and deleted.
  unfoldable pub remove_job : List (Text × R) → Text → Manager D → Manager D
  unfolding did
  remove_job config name m =
      if is_some (lookup name config)
      then m
      else did (stops name) (record m { jobs = erase name m.jobs })

  -- The loop over the jobs that the manager has.
  unfoldable pub remove_jobs : List (Text × R) → List Text → Manager D → Manager D
  remove_jobs config [] m = m
  remove_jobs config (name ∷ names) m = remove_jobs config names (remove_job config name m)

module _ (is_letter is_digit : ℕ → Bool) where
  unfoldable pub service : List (Text × Service) → Text → Found
  service services job =
      let name = find_service_name is_letter is_digit job in
      if is_dummy_service name then dummy else found (lookup name services)

module _ {D R : Type 0} (decode : Text → R → Option D) (quits : Text → Event D → Bool) where
  abbrev pub with_options : Text → Option D → Manager D → Manager D × Option Error
  with_options name none m = (m, some bad_options)
  with_options name (some opts) m = (send_event quits name (loads opts) (ensure_job name m), none)

  abbrev pub set_found : Text → R → Found → Manager D → Manager D × Option Error
  set_found name r missing m = (m, some not_found)
  set_found name r dummy m = (m, none)
  set_found name r (real s) m =
      if s.has_options then with_options name (decode s.name r) m else (ensure_job name m, none)

module _ {D R : Type 0} (is_letter is_digit : ℕ → Bool) (decode : Text → R → Option D)
    (quits : Text → Event D → Bool) where
  unfoldable pub set_options : Text → R → Manager D → Manager D × Option Error
  set_options name r m =
      set_found decode quits name r (service is_letter is_digit m.services name) m

  -- The loop over the jobs of the configuration. An error is logged, and the loop goes on.
  unfoldable pub set_all : List (Text × R) → Manager D → Manager D
  unfolding set_options
  set_all [] m = m
  set_all ((name, r) ∷ config) m = set_all config (set_options name r m).0

  unfoldable pub load_jobs : List (Text × R) → Manager D → Manager D
  unfolding remove_jobs set_all
  load_jobs config m =
      tell_all quits nothing
        (tell_all quits loaded (set_all config (remove_jobs config (keys m.jobs) m)))

  -- `none` is a document that does not decode, which changes nothing.
  unfoldable pub load_config : Option (Config R) → Manager D → Manager D × Bool
  unfolding load_jobs
  load_config none m = (m, false)
  load_config (some c) m =
      (load_jobs c.jobs (record m { conn_opts = c.conn; relay_opts = c.relay }), true)
