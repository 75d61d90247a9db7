-- ===== src/Conn/Invariant/Acts.antt =====
-- The acts of the attempts keep the invariant.
use chrome.Base.{
  ℕ, ◌≤◌, ◌≡◌, ◌&&◌, inl, inr, List, length-set, sum_by-set, sum_by-ge, get_elem?, some, arith,
  All-get_elem?, All-set, ◌∙◌,
}
use chrome.Conn.Options.{ConnOptions}
use chrome.Conn.State.{State, Attempt}
use chrome.Conn.Step.{Act, act}
use chrome.Conn.Acted.{live, owes, one_if, Acted, Due}
use chrome.Conn.Acted.Acts.{act-Outcome}
use chrome.Conn.Invariant.{Counts, Waits, Winner, Reading, Sound, Inv}

module _ (opts : ConnOptions) (stream : List ℕ) (i : ℕ) (a : Attempt) (s : State)
    (here : get_elem? s.all i ≡ some a) (inv : Inv opts stream s) where
  pub Due-Inv : Due a s
  Due-Inv = record {
    sent = sound.0;
    stage = sound.1;
    alive = omega (arith, inv.counts.counted, sum_by-ge (λ b. live b.phase) s.all i a here);
    owing = omega (arith, inv.waits.owed, sum_by-ge (λ b. owes b.after_func) s.all i a here);
  }
    where
      sound : Sound s.request (s.loop_done && s.read_done) a
      sound = All-get_elem? (Sound s.request (s.loop_done && s.read_done)) s.all i a inv.sound here

  module _ (s' : State) (a' : Attempt) (d : Acted i a a' s s') where
    Counts-Acted : Counts opts s'
    Counts-Acted = record {
      counted = rw d.placed (
          omega (
            arith,
            inv.counts.counted,
            d.living,
            d.fewer,
            sum_by-set (λ b. live b.phase) s.all i a a' here,
          ));
      made = rw d.placed (omega (arith, inv.counts.made, d.kept.attempts, length-set s.all i a'));
      room = omega (arith, inv.counts.room, d.living, d.fewer);
      limit = omega (arith, inv.counts.limit, d.kept.attempts);
    }

    Waits-Acted : Waits s'
    Waits-Acted = record {
      owed =
          rw (d.placed, d.kept.timer_running)
            (omega (
              arith,
              inv.waits.owed,
              d.owed,
              sum_by-set (λ b. owes b.after_func) s.all i a a' here,
            ));
      calm = d.calm ∙ inv.waits.calm;
      clock = rw (d.kept.timer_running, d.kept.timer) inv.waits.clock;
      paced = rw (d.kept.timer_running, d.kept.newconn) inv.waits.paced;
      ends = rw (d.kept.loop_done, d.kept.pc) inv.waits.ends;
    }

    Winner-Acted : Winner s'
    Winner-Acted = record {
      winners = rw d.placed (
          ground (
            arith,
            inv.winner.winners,
            sum_by-set (λ b. one_if b.is_winner) s.all i a a' here,
            d.won,
          ));
      told = ground (arith, inv.winner.told, d.won, d.kept.pc, d.living, d.fewer, alive);
    }
      where
        alive : live a.phase ≤ s.connections
        alive = Due-Inv.alive

    Reading-Acted : Reading stream s'
    Reading-Acted = ground (arith, inv.reads, d.kept)

    Inv-Acted : Sound s.request (s.loop_done && s.read_done) a' → Inv opts stream s'
    Inv-Acted h = record {
      counts = Counts-Acted;
      waits = Waits-Acted;
      winner = Winner-Acted;
      reads = Reading-Acted;
      sound =
          rw (d.kept.request, d.kept.loop_done, d.kept.read_done, d.placed)
            (All-set (Sound s.request (s.loop_done && s.read_done)) s.all i a' h inv.sound);
    }

  -- Whatever an attempt does, the invariant holds afterwards.
  pub act-Inv : (x : Act) → Inv opts stream (act i x a s)
  act-Inv x = elim (act-Outcome i x a s Due-Inv) [
    | inl same ↦ rw same inv
    | inr (a', acted, sent, stage) ↦ Inv-Acted (act i x a s) a' acted (sent, stage)
  ]
