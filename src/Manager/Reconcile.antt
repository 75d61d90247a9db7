-- ===== src/Manager/Reconcile.antt =====
-- What a loaded configuration makes of the job of each name.
use mathlib.Core.Option
use chrome.Base.{
  ℕ, ◌≡◌, refl, sym, ap, ◌∙◌, Bool, true, false, not, ◌&&◌, ◌⊎◌, List, [], ◌∷◌, Option, none, some,
  inl, inr, Bool-cases, if◌then◌else◌,
}
use chrome.Base.Text.{Text, same_text, same_text→eq}
use chrome.Base.Dict.{lookup, keys, is_some, IsMap, lookup_same, has_text-keys}
use chrome.Manager.State.{Event, loads, loaded, nothing, Job, Manager, tell, tell_all}
use chrome.Manager.Sends.{send_event-IsMap, send_event-services, lookup-tell_all, send_all-IsMap}
use chrome.Manager.Jobs.{
  configured, after_load, lookup-remove_jobs, remove_jobs-IsMap, remove_jobs-services,
  ensure_job-services, ensure_job-IsMap, lookup-set_found,
}
use chrome.Manager.Load.{
  Found, missing, dummy, real, service, ensure_job, with_options, set_found, set_options,
  remove_jobs, set_all, load_jobs,
}

module _ {D R : Type 0} (decode : Text → R → Option D) (quits : Text → Event D → Bool) where
  -- Setting the options of one job keeps the services, and keeps the jobs a map.
  set_found-kept :
      (n : Text) (r : R) (f : Found) (m : Manager D)
      → let m' = (set_found decode quits n r f m).0 in
        (m'.services ≡ m.services) × (IsMap m.jobs → IsMap m'.jobs)
  set_found-kept n r missing m = (refl, λ h. h)
  set_found-kept n r dummy m = (refl, λ h. h)
  set_found-kept n r (real s) m = elim (Bool-cases s.has_options) [
    | inl e ↦ rw e (by_options (decode s.name r))
    | inr e ↦ rw e (ensure_job-services n m, ensure_job-IsMap n m)
  ]
    where
      by_options :
          (o : Option D)
          → let m' = (with_options decode quits n o m).0 in
            (m'.services ≡ m.services) × (IsMap m.jobs → IsMap m'.jobs)
      by_options none = (refl, λ h. h)
      by_options (some d) = (
        send_event-services quits n (loads d) (ensure_job n m) ∙ ensure_job-services n m,
        λ h. send_event-IsMap quits n (loads d) (ensure_job n m) (ensure_job-IsMap n m h),
      )

  -- A job that the configuration has options for, and any other job.
  abbrev in_config : Text → Option R → Found → Option (Job D) → Option (Job D)
  in_config k none f old = old
  in_config k (some r) f old = configured decode quits k r f old

module _ {D R : Type 0} (is_letter is_digit : ℕ → Bool) (decode : Text → R → Option D)
    (quits : Text → Event D → Bool) where
  set_all-IsMap :
      (config : List (Text × R)) (m : Manager D)
      → IsMap m.jobs
      → IsMap (set_all is_letter is_digit decode quits config m).jobs
  unfolding set_all set_options
  set_all-IsMap [] m h = h
  set_all-IsMap ((n, r) ∷ config) m h =
      set_all-IsMap config (set_options is_letter is_digit decode quits n r m).0
        ((set_found-kept decode quits n r (service is_letter is_digit m.services n) m).1 h)

  lookup-set_all :
      (config : List (Text × R)) (k : Text) (m : Manager D)
      → IsMap config
      → lookup k (set_all is_letter is_digit decode quits config m).jobs
        ≡ in_config decode quits k
            (lookup k config)
            (service is_letter is_digit m.services k)
            (lookup k m.jobs)
  unfolding set_all set_options lookup
  lookup-set_all [] k m h = refl
  lookup-set_all ((n, r) ∷ config) k m h =
      lookup-set_all config k next h.1
      ∙ rw (kept.0, lookup-set_found decode quits n k r (service is_letter is_digit m.services n) m)
          (by_key (Bool-cases (same_text n k)))
    where
      next : Manager D
      next = (set_options is_letter is_digit decode quits n r m).0

      kept : (next.services ≡ m.services) × (IsMap m.jobs → IsMap next.jobs)
      kept = set_found-kept decode quits n r (service is_letter is_digit m.services n) m

      at_key : Found
      at_key = service is_letter is_digit m.services k

      by_key :
          (same_text n k ≡ true) ⊎ (same_text n k ≡ false)
          → in_config decode quits k (lookup k config) at_key (
              if same_text n k
              then configured decode quits k r
                  (service is_letter is_digit m.services n)
                  (lookup k m.jobs)
              else lookup k m.jobs)
            ≡ in_config decode quits k
                (if same_text n k then some r else lookup k config)
                at_key
                (lookup k m.jobs)
      by_key (inl e) =
          rw
            (
              e,
              sym (lookup_same n k config e) ∙ h.0,
              ap (service is_letter is_digit m.services) (same_text→eq n k e),
            )
            refl
      by_key (inr e) = rw e refl

  -- For a manager and a configuration in which no job name comes twice, whatever the jobs do
  -- with their events: after loading, a name that the configuration lacks has no job; a name
  -- whose service is not registered or not real, or whose options do not decode, keeps the job
  -- it had; any other name has its job, a new one if there was none or it had ended, which was
  -- sent its options if the service has any; and each job that is there was then told that all
  -- options are there, and sent the nil event.
  pub lookup-load_jobs :
      (config : List (Text × R)) (k : Text) (m : Manager D)
      → IsMap config
      → IsMap m.jobs
      → lookup k (load_jobs is_letter is_digit decode quits config m).jobs
        ≡ after_load decode quits k
            (lookup k config)
            (service is_letter is_digit m.services k)
            (lookup k m.jobs)
  unfolding load_jobs
  lookup-load_jobs config k m hc hm =
      lookup-tell_all quits k nothing (tell_all quits loaded set) told_map
      ∙ ap (Option.map (tell quits k nothing)) (lookup-tell_all quits k loaded set set_map)
      ∙ ap (λ o. Option.map (tell quits k nothing) (Option.map (tell quits k loaded) o)) set_lookup
      ∙ finish (lookup k config) (lookup k m.jobs)
    where
      removed : Manager D
      removed = remove_jobs config (keys m.jobs) m

      set : Manager D
      set = set_all is_letter is_digit decode quits config removed

      set_map : IsMap set.jobs
      set_map = set_all-IsMap config removed (remove_jobs-IsMap config (keys m.jobs) m hm)

      told_map : IsMap (tell_all quits loaded set).jobs
      told_map = send_all-IsMap quits (keys set.jobs) loaded set set_map

      at_key : Found
      at_key = service is_letter is_digit m.services k

      set_lookup :
          lookup k set.jobs
          ≡ in_config decode quits k (lookup k config) at_key (
              if is_some (lookup k m.jobs) && not (is_some (lookup k config))
              then none
              else lookup k m.jobs)
      set_lookup =
          lookup-set_all config k removed hc
          ∙ rw
              (
                remove_jobs-services config (keys m.jobs) m,
                lookup-remove_jobs config (keys m.jobs) k m,
                has_text-keys k m.jobs,
              )
              refl

      finish :
          (o : Option R) (old : Option (Job D))
          → Option.map (tell quits k nothing) (
              Option.map (tell quits k loaded) (
                in_config decode quits k o at_key
                  (if is_some old && not (is_some o) then none else old)))
            ≡ after_load decode quits k o at_key old
      finish none none = refl
      finish none (some job) = refl
      finish (some r) none = refl
      finish (some r) (some job) = refl
