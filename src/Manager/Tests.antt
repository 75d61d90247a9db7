-- ===== src/Manager/Tests.antt =====
-- The manager on a concrete configuration, and the theorems at concrete inputs.
use chrome.Base.{
  ℕ, ◌≡◌, refl, Bool, true, false, ◌&&◌, List, [], ◌∷◌, ◌++◌, Option, none, some, leb, ◌==◌,
  if◌then◌else◌, codes,
}
use chrome.Base.Int.{pos}
use chrome.Base.Text.{Text, same_text}
use chrome.Base.Dict.{lookup, insert, erase, keys, IsMap}
use chrome.Conn.Options.{ConnOptions}
use chrome.Relay.Options.{RelayOptions}
use chrome.Manager.Names.{index_func, ends_name, find_service_name, is_dummy_service}
use chrome.Manager.State.{
  Event, loads, loaded, nothing, Action, stops, starts, sends, Manager, new_job, did, tell,
  send_event, send_all,
}
use chrome.Manager.Load.{
  Config, service, start_job, ensure_job, set_options, remove_job, remove_jobs, set_all, load_jobs,
  stop_jobs,
}
use chrome.Manager.Files.{File, config_in, config_file, load_fs, IsHandled, load_fs-IsHandled}
use chrome.Manager.Jobs.{after_load}
use chrome.Manager.Reconcile.{lookup-load_jobs}
use chrome.Manager.Order.{IsAscending, load_jobs-IsAscending}

abbrev ascii_letter : ℕ → Bool
ascii_letter c = leb b'a' c && leb c b'z'

abbrev ascii_digit : ℕ → Bool
ascii_digit c = leb b'0' c && leb c b'9'

-- Options are numbers, and 0 does not decode.
abbrev small : Text → ℕ → Option ℕ
small name n = if n == 0 then none else some n

abbrev stays : Text → Event ℕ → Bool
stays name ev = false

abbrev no_conn : ConnOptions
no_conn = record { timeout = pos 0; interval = pos 0; parallel = pos 0; max_attempts = pos 0 }

abbrev no_relay : RelayOptions
no_relay = record { conn_idle = pos 0; uplink_idle = pos 0; downlink_idle = pos 0 }

abbrev http : Text
http = codes "http"

abbrev http_one : Text
http_one = codes "http|1"

abbrev socks : Text
socks = codes "socks"

-- One service, with a job that runs under its name and one that has ended.
abbrev manager : Manager ℕ
manager = record {
  services = (http, record { name = http; has_options = true }) ∷ [];
  jobs =
      (http, record { ended = false; received = loads 4 ∷ loaded ∷ nothing ∷ [] })
      ∷ (http_one, record { ended = true; received = [] })
      ∷ (codes "http|2", record { ended = false; received = [] })
      ∷ [];
  conn_opts = no_conn;
  relay_opts = no_relay;
  trace = [];
}

abbrev config : List (Text × ℕ)
config = (http_one, 7) ∷ (socks, 1) ∷ (http, 0) ∷ []

loaded_manager : load_jobs ascii_letter ascii_digit small stays config manager ≡ record manager {
  jobs =
      (
        http,
        record { ended = false; received = loads 4 ∷ loaded ∷ nothing ∷ loaded ∷ nothing ∷ [] },
      )
      ∷ (http_one, record { ended = false; received = loads 7 ∷ loaded ∷ nothing ∷ [] })
      ∷ [];
  trace =
      stops (codes "http|2")
      ∷ starts http_one
      ∷ sends http_one (loads 7)
      ∷ sends http loaded
      ∷ sends http_one loaded
      ∷ sends http nothing
      ∷ sends http_one nothing
      ∷ [];
}
unfolding load_jobs remove_jobs remove_job set_all set_options service find_service_name index_func
    ends_name is_dummy_service same_text lookup insert erase ensure_job start_job new_job did tell
    send_event send_all
loaded_manager = refl

manager-IsMap : IsMap manager.jobs
unfolding lookup same_text
manager-IsMap = (refl, (refl, (refl, tt)))

config-IsMap : IsMap config
unfolding lookup same_text
config-IsMap = (refl, (refl, (refl, tt)))

lookup-load_jobs_example :
    lookup http_one (load_jobs ascii_letter ascii_digit small stays config manager).jobs
    ≡ after_load small stays http_one
        (lookup http_one config)
        (service ascii_letter ascii_digit manager.services http_one)
        (lookup http_one manager.jobs)
lookup-load_jobs_example =
    lookup-load_jobs ascii_letter ascii_digit small stays config http_one manager config-IsMap
      manager-IsMap

load_jobs-IsAscending_example :
    (new : List (Action ℕ)) × ((load_jobs ascii_letter ascii_digit small stays config manager).trace
      ≡ manager.trace ++ new)
    × IsAscending 0 new
load_jobs-IsAscending_example =
    load_jobs-IsAscending ascii_letter ascii_digit small stays config manager

name_goes_on : index_func (ends_name ascii_letter ascii_digit) http ≡ none
unfolding index_func ends_name
name_goes_on = refl

bar_ends : ends_name ascii_letter ascii_digit b'|' ≡ true
unfolding ends_name
bar_ends = refl

-- An archive with two documents, neither of which is the one that is looked for.
abbrev two_documents : File ℕ
two_documents = record {
  content = 0;
  reader_at = true;
  has_stat = true;
  archive = some (record { files = (http, 1) ∷ (socks, 2) ∷ []; yaml_names = http ∷ socks ∷ [] });
}

abbrev parsed : ℕ → Option (Config ℕ)
parsed n = some (record { conn = no_conn; relay = no_relay; jobs = config })

-- A document that is named as expected, beside another.
abbrev named_document : File ℕ
named_document = record two_documents {
  archive = some (record {
    files = (codes "chrome.yaml", 3) ∷ (http, 1) ∷ [];
    yaml_names = codes "chrome.yaml" ∷ http ∷ [];
  });
}

two_fail :
    (load_fs ascii_letter ascii_digit small stays parsed (some two_documents) manager).1 ≡ false
unfolding load_fs config_file config_in lookup same_text
two_fail = refl

named_found : config_file named_document ≡ some 3
unfolding config_file config_in lookup same_text
named_found = refl

load_fs-IsHandled_example :
    IsHandled ascii_letter ascii_digit small stays parsed
      (some named_document)
      manager
      (load_fs ascii_letter ascii_digit small stays parsed (some named_document) manager)
load_fs-IsHandled_example =
    load_fs-IsHandled ascii_letter ascii_digit small stays parsed (some named_document) manager

-- After `StopJobs` the jobs are still in the map, and have ended.
stopped :
    (stop_jobs (keys manager.jobs) manager).trace
    ≡ stops http ∷ stops http_one ∷ stops (codes "http|2") ∷ []
unfolding stop_jobs lookup insert same_text did
stopped = refl
