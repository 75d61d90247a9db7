-- ===== src/Manager/Order.antt =====
-- The order in which a loaded configuration acts on the jobs.
use mathlib.Core.List.{append_assoc, append-nil}
use chrome.Base.{
  ℕ, ◌≤◌, ◌≡◌, refl, sym, ap, ◌∙◌, Bool, List, [], ◌∷◌, ◌++◌, Option, none, some, inl, inr, arith,
  All, All-append, Option-cases, if_intro,
}
use chrome.Base.Text.{Text}
use chrome.Base.Dict.{lookup, keys, is_some}
use chrome.Manager.State.{
  Event, loads, loaded, nothing, Action, stops, starts, sends, Manager, did, send_event, send_all,
  tell_all,
}
use chrome.Manager.Load.{
  Found, missing, dummy, real, service, remove_job, is_gone, ensure_job, with_options, set_found,
  set_options, remove_jobs, set_all, load_jobs, Error,
}

-- First jobs are stopped, then jobs are started and sent their options, then all are told that the
-- options are there, and last that nothing is left.
abbrev pub stage : {D : Type 0} → Action D → ℕ
stage (stops name) = 0
stage (starts name) = 1
stage (sends name (loads d)) = 1
stage (sends name loaded) = 2
stage (sends name nothing) = 3

abbrev pub IsAscending : {D : Type 0} → ℕ → List (Action D) → Type 0
IsAscending lo [] = Unit
IsAscending lo (a ∷ xs) = (lo ≤ stage a) × IsAscending (stage a) xs

module _ {D : Type 0} where
  -- Only acts of one stage are done on the way.
  abbrev Adds : ℕ → Manager D → Manager D → Type 0
  Adds p m m' = (new : List (Action D)) × (m'.trace ≡ m.trace ++ new) × All (λ a. stage a ≡ p) new

  Adds-none : (p : ℕ) (m : Manager D) → Adds p m m
  Adds-none p m = ([], sym (append-nil m.trace), tt)

  Adds-trans : (p : ℕ) (l m n : Manager D) → Adds p l m → Adds p m n → Adds p l n
  Adds-trans p l m n (xs, e, h) (ys, f, k) =
      (xs ++ ys, f ∙ rw e (append_assoc l.trace xs ys), All-append (λ a. stage a ≡ p) xs ys h k)

  Ascending-append :
      (lo p : ℕ) (xs ys : List (Action D))
      → lo ≤ p
      → All (λ a. stage a ≡ p) xs
      → IsAscending p ys
      → IsAscending lo (xs ++ ys)
  Ascending-append lo p [] ys h k l = lower lo p ys h l
    where
      lower : (lo p : ℕ) (ys : List (Action D)) → lo ≤ p → IsAscending p ys → IsAscending lo ys
      lower lo p [] h l = tt
      lower lo p (y ∷ ys) h l = (omega (arith, l.0), l.1)
  Ascending-append lo p (a ∷ xs) ys h k l =
      (omega (arith, k.0), Ascending-append (stage a) p xs ys (omega (arith, k.0)) k.1 l)

  module _ (quits : Text → Event D → Bool) where
    send_event-Adds :
        (p : ℕ) (name : Text) (ev : Event D) (m : Manager D)
        → ((n : Text) → stage (sends n ev) ≡ p)
        → Adds p m (send_event quits name ev m)
    unfolding send_event did
    send_event-Adds p name ev m h = elim (Option-cases (lookup name m.jobs)) [
      | inl gone ↦ rw gone (Adds-none p m)
      | inr (job, there) ↦ rw there (sends name ev ∷ [], refl, (h name, tt))
    ]

    send_all-Adds :
        (p : ℕ) (ev : Event D) (names : List Text) (m : Manager D)
        → ((n : Text) → stage (sends n ev) ≡ p)
        → Adds p m (send_all quits ev names m)
    unfolding send_all
    send_all-Adds p ev [] m h = Adds-none p m
    send_all-Adds p ev (name ∷ names) m h =
        let m' = send_event quits name ev m in
        Adds-trans p m m' (send_all quits ev names m') (send_event-Adds p name ev m h)
          (send_all-Adds p ev names m' h)

  ensure_job-Adds : (name : Text) (m : Manager D) → Adds 1 m (ensure_job name m)
  unfolding ensure_job did
  ensure_job-Adds name m =
      if_intro (Adds 1 m) (is_gone (lookup name m.jobs)) _ _
        (λ e. (starts name ∷ [], refl, (refl, tt))) (λ e. Adds-none 1 m)

module _ {D R : Type 0} (config : List (Text × R)) where
  remove_job-Adds : (name : Text) (m : Manager D) → Adds 0 m (remove_job config name m)
  unfolding remove_job did
  remove_job-Adds name m =
      if_intro (Adds 0 m) (is_some (lookup name config)) _ _ (λ e. Adds-none 0 m)
        (λ e. (stops name ∷ [], refl, (refl, tt)))

  remove_jobs-Adds : (names : List Text) (m : Manager D) → Adds 0 m (remove_jobs config names m)
  unfolding remove_jobs
  remove_jobs-Adds [] m = Adds-none 0 m
  remove_jobs-Adds (name ∷ names) m =
      let m' = remove_job config name m in
      Adds-trans 0 m m' (remove_jobs config names m') (remove_job-Adds name m)
        (remove_jobs-Adds names m')

module _ {D R : Type 0} (decode : Text → R → Option D) (quits : Text → Event D → Bool) where
  with_options-Adds :
      (name : Text) (o : Option D) (m : Manager D) → Adds 1 m (with_options decode quits name o m).0
  with_options-Adds name none m = Adds-none 1 m
  with_options-Adds name (some d) m =
      let m' = ensure_job name m in
      Adds-trans 1 m m' (send_event quits name (loads d) m') (ensure_job-Adds name m)
        (send_event-Adds quits 1 name (loads d) m' (λ n. refl))

  set_found-Adds :
      (name : Text) (r : R) (f : Found) (m : Manager D)
      → Adds 1 m (set_found decode quits name r f m).0
  set_found-Adds name r missing m = Adds-none 1 m
  set_found-Adds name r dummy m = Adds-none 1 m
  set_found-Adds name r (real s) m =
      if_intro (λ (x : Manager D × Option Error). Adds 1 m x.0) s.has_options _ _
        (λ e. with_options-Adds name (decode s.name r) m) (λ e. ensure_job-Adds name m)

module _ {D R : Type 0} (is_letter is_digit : ℕ → Bool) (decode : Text → R → Option D)
    (quits : Text → Event D → Bool) where
  set_all-Adds :
      (config : List (Text × R)) (m : Manager D)
      → Adds 1 m (set_all is_letter is_digit decode quits config m)
  unfolding set_all set_options
  set_all-Adds [] m = Adds-none 1 m
  set_all-Adds ((name, r) ∷ config) m =
      let m' = (set_options is_letter is_digit decode quits name r m).0 in
      Adds-trans 1 m m' (set_all is_letter is_digit decode quits config m')
        (set_found-Adds decode quits name r (service is_letter is_digit m.services name) m)
        (set_all-Adds config m')

  -- Loading a configuration acts on the jobs in this order, whatever the configuration, the
  -- jobs and what they do: all that have to go are stopped, then jobs are started and sent
  -- their options, then the event that the options are there is sent, to none before the last
  -- options, and last the nil event.
  pub load_jobs-IsAscending :
      (config : List (Text × R)) (m : Manager D)
      → (new : List (Action D)) × ((load_jobs is_letter is_digit decode quits config m).trace
          ≡ m.trace ++ new)
        × IsAscending 0 new
  unfolding load_jobs
  load_jobs-IsAscending config m = (
    removes.0 ++ (sets.0 ++ (told.0 ++ rest.0)),
    rest.1
        ∙ ap (λ xs. xs ++ rest.0)
            (told.1 ∙ ap (λ xs. xs ++ told.0) (sets.1 ∙ ap (λ xs. xs ++ sets.0) removes.1))
        ∙ simp append_assoc refl,
    Ascending-append 0 0 removes.0 _ (omega arith) removes.2 (
        Ascending-append 0 1 sets.0 _ (omega arith) sets.2 (
          Ascending-append 1 2 told.0 _ (omega arith) told.2 (
            rw (sym (append-nil rest.0))
              (Ascending-append 2 3 rest.0 [] (omega arith) rest.2 tt)))),
  )
    where
      m1 : Manager D
      m1 = remove_jobs config (keys m.jobs) m

      removes : Adds 0 m m1
      removes = remove_jobs-Adds config (keys m.jobs) m

      m2 : Manager D
      m2 = set_all is_letter is_digit decode quits config m1

      sets : Adds 1 m1 m2
      sets = set_all-Adds config m1

      m3 : Manager D
      m3 = tell_all quits loaded m2

      told : Adds 2 m2 m3
      told = send_all-Adds quits 2 loaded (keys m2.jobs) m2 (λ n. refl)

      rest : Adds 3 m3 (tell_all quits nothing m3)
      rest = send_all-Adds quits 3 nothing (keys m3.jobs) m3 (λ n. refl)
