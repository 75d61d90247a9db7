-- ===== src/Manager/Sends.antt =====
-- What an event that is sent to one job or to all does to the job of each name.
use mathlib.Core.Option
use chrome.Base.{
  ◌≡◌, refl, sym, ap, ◌∙◌, Bool, false, List, [], ◌∷◌, Option, none, some, inl, inr, Bool-cases,
  Option-cases, if◌then◌else◌,
}
use chrome.Base.Text.{Text, same_text, same_text→eq, has_text}
use chrome.Base.Dict.{lookup, keys, IsMap, lookup-insert, lookup_same, insert-IsMap, has_text-keys}
use chrome.Manager.State.{Event, Job, Manager, did, tell, told, send_event, send_all, tell_all}

module _ {D : Type 0} (quits : Text → Event D → Bool) where
  pub lookup-send_event :
      (n k : Text) (ev : Event D) (m : Manager D)
      → lookup k (send_event quits n ev m).jobs ≡ (
          if same_text n k then Option.map (tell quits k ev) (lookup k m.jobs) else lookup k m.jobs)
  unfolding send_event did
  lookup-send_event n k ev m = by_job (lookup n m.jobs) refl
    where
      by_job :
          (o : Option (Job D))
          → lookup n m.jobs ≡ o
          → lookup k (told quits n ev o m).jobs ≡ (
              if same_text n k
              then Option.map (tell quits k ev) (lookup k m.jobs)
              else lookup k m.jobs)
      by_job none e = elim (Bool-cases (same_text n k)) [
        | inl same ↦ rw (same, sym (lookup_same n k m.jobs same) ∙ e) refl
        | inr other ↦ rw other refl
      ]
      by_job (some job) e =
          lookup-insert n k (tell quits n ev job) m.jobs ∙ elim (Bool-cases (same_text n k)) [
            | inl same ↦
                rw (same, sym (lookup_same n k m.jobs same) ∙ e, same_text→eq n k same) refl
            | inr other ↦ rw other refl
          ]

  pub send_event-IsMap :
      (n : Text) (ev : Event D) (m : Manager D)
      → IsMap m.jobs
      → IsMap (send_event quits n ev m).jobs
  unfolding send_event did
  send_event-IsMap n ev m h = elim (Option-cases (lookup n m.jobs)) [
    | inl gone ↦ rw gone h
    | inr (job, there) ↦ rw there (insert-IsMap n (tell quits n ev job) m.jobs h)
  ]

  pub send_event-services :
      (n : Text) (ev : Event D) (m : Manager D) → (send_event quits n ev m).services ≡ m.services
  unfolding send_event did
  send_event-services n ev m = elim (Option-cases (lookup n m.jobs)) [
    | inl gone ↦ rw gone refl
    | inr (job, there) ↦ rw there refl
  ]

  abbrev NoneTwice : List Text → Type 0
  NoneTwice [] = Unit
  NoneTwice (n ∷ ns) = (has_text ns n ≡ false) × NoneTwice ns

  keys-NoneTwice : (m : List (Text × Job D)) → IsMap m → NoneTwice (keys m)
  keys-NoneTwice [] h = tt
  keys-NoneTwice ((k, v) ∷ m) h = (has_text-keys k m ∙ rw h.0 refl, keys-NoneTwice m h.1)

  lookup-send_all :
      (ns : List Text) (k : Text) (ev : Event D) (m : Manager D)
      → NoneTwice ns
      → lookup k (send_all quits ev ns m).jobs ≡ (
          if has_text ns k then Option.map (tell quits k ev) (lookup k m.jobs) else lookup k m.jobs)
  unfolding send_all has_text
  lookup-send_all [] k ev m h = refl
  lookup-send_all (n ∷ ns) k ev m h =
      lookup-send_all ns k ev (send_event quits n ev m) h.1 ∙ elim (Bool-cases (same_text n k)) [
        | inl same ↦
            rw
              (
                lookup-send_event n k ev m,
                same,
                sym (ap (has_text ns) (same_text→eq n k same)) ∙ h.0,
              )
              refl
        | inr other ↦ rw (lookup-send_event n k ev m, other) refl
      ]

  pub send_all-IsMap :
      (ns : List Text) (ev : Event D) (m : Manager D)
      → IsMap m.jobs
      → IsMap (send_all quits ev ns m).jobs
  unfolding send_all
  send_all-IsMap [] ev m h = h
  send_all-IsMap (n ∷ ns) ev m h =
      send_all-IsMap ns ev (send_event quits n ev m) (send_event-IsMap n ev m h)

  pub lookup-tell_all :
      (k : Text) (ev : Event D) (m : Manager D)
      → IsMap m.jobs
      → lookup k (tell_all quits ev m).jobs ≡ Option.map (tell quits k ev) (lookup k m.jobs)
  lookup-tell_all k ev m h =
      lookup-send_all (keys m.jobs) k ev m (keys-NoneTwice m.jobs h)
      ∙ elim (Option-cases (lookup k m.jobs)) [
        | inl gone ↦ rw (has_text-keys k m.jobs, gone) refl
        | inr (job, there) ↦ rw (has_text-keys k m.jobs, there) refl
      ]
