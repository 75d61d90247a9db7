-- ===== src/Manager/Jobs.antt =====
-- What each step of loading a configuration does to the job of each name.
use mathlib.Core.Option
use chrome.Base.{
  ◌≡◌, refl, ◌∙◌, Bool, true, false, not, ◌&&◌, ◌⊎◌, List, [], ◌∷◌, Option, none, some, inl, inr,
  arith, Bool-cases, if_intro, ◌||◌, if◌then◌else◌,
}
use chrome.Base.Text.{Text, same_text, has_text}
use chrome.Base.Dict.{
  lookup, is_some, IsMap, lookup-insert, lookup-erase, lookup_same, insert-IsMap, erase-IsMap,
}
use chrome.Manager.State.{Event, loads, loaded, nothing, Job, Manager, new_job, did, tell}
use chrome.Manager.Sends.{lookup-send_event}
use chrome.Manager.Load.{
  Found, missing, dummy, real, remove_job, is_gone, ensure_job, with_options, set_found,
  remove_jobs,
}

-- A job that runs: the one that is there, or a new one.
abbrev pub running : {D : Type 0} → Option (Job D) → Job D
running none = new_job
running (some job) = if job.ended then new_job else job

module _ {D R : Type 0} (config : List (Text × R)) where
  lookup-remove_job :
      (n k : Text) (m : Manager D)
      → lookup k (remove_job config n m).jobs
        ≡ (if same_text n k && not (is_some (lookup k config)) then none else lookup k m.jobs)
  unfolding remove_job did
  lookup-remove_job n k m = elim (Bool-cases (same_text n k)) [
    | inl same ↦ elim (Bool-cases (is_some (lookup k config))) [
      | inl listed ↦ rw (lookup_same n k config same, listed, same) refl
      | inr stale ↦
          rw (lookup_same n k config same, stale, same) (lookup-erase n k m.jobs ∙ rw same refl)
    ]
    | inr other ↦ elim (Bool-cases (is_some (lookup n config))) [
      | inl listed ↦ rw (listed, other) refl
      | inr stale ↦ rw (stale, other) (lookup-erase n k m.jobs ∙ rw other refl)
    ]
  ]

  remove_job-IsMap : (n : Text) (m : Manager D) → IsMap m.jobs → IsMap (remove_job config n m).jobs
  unfolding remove_job did
  remove_job-IsMap n m h =
      if_intro (λ (s : Manager D). IsMap s.jobs) (is_some (lookup n config)) _ _ (λ e. h)
        (λ e. erase-IsMap n m.jobs h)

  remove_job-services : (n : Text) (m : Manager D) → (remove_job config n m).services ≡ m.services
  unfolding remove_job did
  remove_job-services n m =
      if_intro (λ (s : Manager D). s.services ≡ m.services) (is_some (lookup n config)) _ _
        (λ e. refl) (λ e. refl)

  -- Those that the configuration lacks are removed.
  pub lookup-remove_jobs :
      (ns : List Text) (k : Text) (m : Manager D)
      → lookup k (remove_jobs config ns m).jobs
        ≡ (if has_text ns k && not (is_some (lookup k config)) then none else lookup k m.jobs)
  unfolding remove_jobs has_text
  lookup-remove_jobs [] k m = refl
  lookup-remove_jobs (n ∷ ns) k m =
      lookup-remove_jobs ns k (remove_job config n m)
      ∙ rw (lookup-remove_job n k m)
          (once (same_text n k) (has_text ns k) (not (is_some (lookup k config))))
    where
      once :
          (a b c : Bool)
          → (if b && c then none else if a && c then none else lookup k m.jobs)
            ≡ (if (a || b) && c then none else lookup k m.jobs)
      once a b c = ground arith

  pub remove_jobs-IsMap :
      (ns : List Text) (m : Manager D) → IsMap m.jobs → IsMap (remove_jobs config ns m).jobs
  unfolding remove_jobs
  remove_jobs-IsMap [] m h = h
  remove_jobs-IsMap (n ∷ ns) m h =
      remove_jobs-IsMap ns (remove_job config n m) (remove_job-IsMap n m h)

  pub remove_jobs-services :
      (ns : List Text) (m : Manager D) → (remove_jobs config ns m).services ≡ m.services
  unfolding remove_jobs
  remove_jobs-services [] m = refl
  remove_jobs-services (n ∷ ns) m =
      remove_jobs-services ns (remove_job config n m) ∙ remove_job-services n m

module _ {D : Type 0} where
  gone_new : (o : Option (Job D)) → is_gone o ≡ true → running o ≡ new_job
  gone_new none h = refl
  gone_new (some job) h = rw h refl

  there_same : (o : Option (Job D)) → is_gone o ≡ false → some (running o) ≡ o
  there_same none h = absurd (cc)
  there_same (some job) h = rw h refl

  lookup-ensure_job :
      (n k : Text) (m : Manager D)
      → lookup k (ensure_job n m).jobs
        ≡ (if same_text n k then some (running (lookup k m.jobs)) else lookup k m.jobs)
  unfolding ensure_job did new_job
  lookup-ensure_job n k m =
      if_intro
        (λ (s : Manager D).
          lookup k s.jobs
          ≡ (if same_text n k then some (running (lookup k m.jobs)) else lookup k m.jobs))
        (is_gone (lookup n m.jobs)) _ _
        (λ gone. lookup-insert n k new_job m.jobs ∙ fresh gone (Bool-cases (same_text n k)))
        (λ there. same_job there (Bool-cases (same_text n k)))
    where
      fresh :
          is_gone (lookup n m.jobs) ≡ true
          → (same_text n k ≡ true) ⊎ (same_text n k ≡ false)
          → (if same_text n k then some new_job else lookup k m.jobs)
            ≡ (if same_text n k then some (running (lookup k m.jobs)) else lookup k m.jobs)
      fresh gone (inl e) =
          rw (e, gone_new (lookup k m.jobs) (rw (lookup_same n k m.jobs e) at gone)) refl
      fresh gone (inr e) = rw e refl

      same_job :
          is_gone (lookup n m.jobs) ≡ false
          → (same_text n k ≡ true) ⊎ (same_text n k ≡ false)
          → lookup k m.jobs
            ≡ (if same_text n k then some (running (lookup k m.jobs)) else lookup k m.jobs)
      same_job there (inl e) =
          rw (e, there_same (lookup k m.jobs) (rw (lookup_same n k m.jobs e) at there)) refl
      same_job there (inr e) = rw e refl

  pub ensure_job-services : (n : Text) (m : Manager D) → (ensure_job n m).services ≡ m.services
  unfolding ensure_job did
  ensure_job-services n m =
      if_intro (λ (s : Manager D). s.services ≡ m.services) (is_gone (lookup n m.jobs)) _ _
        (λ e. refl) (λ e. refl)

  pub ensure_job-IsMap : (n : Text) (m : Manager D) → IsMap m.jobs → IsMap (ensure_job n m).jobs
  unfolding ensure_job did
  ensure_job-IsMap n m h =
      if_intro (λ (s : Manager D). IsMap s.jobs) (is_gone (lookup n m.jobs)) _ _
        (λ e. insert-IsMap n new_job m.jobs h) (λ e. h)

module _ {D R : Type 0} (decode : Text → R → Option D) (quits : Text → Event D → Bool) where
  -- What the options that decode do to a job of this name; without them it is left alone.
  abbrev pub decoded : Text → Option D → Option (Job D) → Option (Job D)
  decoded k none old = old
  decoded k (some d) old = some (tell quits k (loads d) (running old))

  abbrev pub configured : Text → R → Found → Option (Job D) → Option (Job D)
  configured k r missing old = old
  configured k r dummy old = old
  configured k r (real s) old =
      if s.has_options then decoded k (decode s.name r) old else some (running old)

  -- The job of a name after a load, by what it was, by the service of that name, and by what the
  -- configuration has for it.
  abbrev pub after_load : Text → Option R → Found → Option (Job D) → Option (Job D)
  after_load k none f old = none
  after_load k (some r) f old =
      Option.map (tell quits k nothing) (Option.map (tell quits k loaded) (configured k r f old))

  if_same : (b : Bool) (o : Option (Job D)) → o ≡ (if b then o else o)
  if_same true o = refl
  if_same false o = refl

  lookup-with_options :
      (n k : Text) (o : Option D) (m : Manager D)
      → lookup k (with_options decode quits n o m).0.jobs
        ≡ (if same_text n k then decoded k o (lookup k m.jobs) else lookup k m.jobs)
  lookup-with_options n k none m = if_same (same_text n k) (lookup k m.jobs)
  lookup-with_options n k (some d) m =
      lookup-send_event quits n k (loads d) (ensure_job n m)
      ∙ rw (lookup-ensure_job n k m)
          (elim (Bool-cases (same_text n k)) [ inl e ↦ rw e refl | inr e ↦ rw e refl ])

  pub lookup-set_found :
      (n k : Text) (r : R) (f : Found) (m : Manager D)
      → lookup k (set_found decode quits n r f m).0.jobs
        ≡ (if same_text n k then configured k r f (lookup k m.jobs) else lookup k m.jobs)
  lookup-set_found n k r missing m = if_same (same_text n k) (lookup k m.jobs)
  lookup-set_found n k r dummy m = if_same (same_text n k) (lookup k m.jobs)
  lookup-set_found n k r (real s) m = elim (Bool-cases s.has_options) [
    | inl e ↦ rw e (lookup-with_options n k (decode s.name r) m)
    | inr e ↦ rw e (lookup-ensure_job n k m)
  ]
