-- ===== src/Ingest/Poller/Thresholds.antt =====
-- What the poller decides before the limit of empty polls, and at it.
use radar_workstation.Common.{
  ℕ, zero, suc, ◌+◌, ◌-◌, ◌≡◌, ◌<◌, ◌≤◌, ap, refl, none, some, List, [], ◌∷◌, Bool, true, false,
  arith, leb, lt→ltb, le→leb, lt→leb,
}
use radar_workstation.Ingest.{reanchor_empty_polls, stuck_mid_volume_empty_polls}
use radar_workstation.Ingest.Listing.{newest_or, max}
use radar_workstation.Ingest.Poller.{
  Poller, re_anchor, next_target, anchor_after, inc_u64, inc_u32, dec_u64, count_empty_poll,
  move_to, act, poll_state, should_relist,
}

-- The poller has counted `n` empty polls of the volume after `v`, of which a key was seen or not.
abbrev pub Waiting : ℕ → Bool → ℕ → Poller → Type 0
Waiting v seen n p =
    (p.last_completed_volume ≡ some v)
    × (p.seen_any_key_in_current_volume ≡ seen)
    × (p.consecutive_empty_polls ≡ n)

-- When the next empty poll is the one that a recovery acts on.
abbrev pub limit : Bool → ℕ
limit false = reanchor_empty_polls
limit true = stuck_mid_volume_empty_polls

pub few_polls :
    (v n : ℕ) (seen : Bool) (p : Poller) (bound : ℕ)
    → Waiting v seen n p
    → n + 1 < bound
    → bound < 100
    → leb bound (inc_u32 p.consecutive_empty_polls) ≡ false
few_polls v n seen p bound waiting early small =
    let count = waiting.2 in lt→leb bound (inc_u32 p.consecutive_empty_polls) (omega arith)

pub next_count :
    (v n : ℕ) (seen : Bool) (p : Poller)
    → Waiting v seen n p
    → n + 1 < limit seen
    → inc_u32 p.consecutive_empty_polls ≡ suc n
next_count v n true p waiting early = omega (arith, waiting.2)
next_count v n false p waiting early = omega (arith, waiting.2)

pub dec_u64-pred : (n : ℕ) → 0 < n → dec_u64 n ≡ n - 1
dec_u64-pred zero h = absurd (omega arith)
dec_u64-pred (suc n) h = omega arith

pub should_relist-early :
    (v n : ℕ) (seen : Bool) (p : Poller)
    → Waiting v seen n p
    → n + 1 < limit seen
    → should_relist (count_empty_poll v p) ≡ false
unfolding count_empty_poll
should_relist-early v n true p waiting early = rw (waiting.1)
should_relist-early v n false p waiting early =
    let few = few_polls v n false p 12 waiting (omega arith) (omega arith) in rw (waiting.1, few)

pub should_relist-due :
    (v n : ℕ) (p : Poller)
    → Waiting v false n p
    → n + 1 ≡ reanchor_empty_polls
    → should_relist (count_empty_poll v p) ≡ true
unfolding count_empty_poll
should_relist-due v n p waiting due =
    let many =
      le→leb reanchor_empty_polls (inc_u32 p.consecutive_empty_polls) (omega (arith, waiting.2)) in
    rw (waiting.1, many)

pub should_relist-seen :
    (v n : ℕ) (p : Poller) → Waiting v true n p → should_relist (count_empty_poll v p) ≡ false
unfolding count_empty_poll
should_relist-seen v n p waiting = rw (waiting.1)

pub act-early :
    (v n : ℕ) (seen : Bool) (p : Poller)
    → Waiting v seen n p
    → n + 1 < limit seen
    → let q = count_empty_poll v p in
      act (next_target (poll_state (inc_u64 v) q) none) false (inc_u64 v) q ≡ (q, [])
unfolding count_empty_poll next_target act
act-early v n true p waiting early =
    let few = few_polls v n true p 60 waiting (omega arith) (omega arith) in rw (waiting.1, few)
act-early v n false p waiting early =
    let few = few_polls v n false p 12 waiting (omega arith) (omega arith) in rw (waiting.1, few)

pub newest_or-nonempty : (d e u : ℕ) (us : List ℕ) → newest_or d (u ∷ us) ≡ newest_or e (u ∷ us)
unfolding newest_or
newest_or-nonempty d e u [] = refl
newest_or-nonempty d e u (w ∷ us) = ap (max u) (newest_or-nonempty d e w us)

pub newest_or-positive :
    (d : ℕ) (folders : List ℕ) → 0 < newest_or 0 folders → newest_or d folders ≡ newest_or 0 folders
unfolding newest_or
newest_or-positive d [] h = absurd (omega arith)
newest_or-positive d (u ∷ us) h = newest_or-nonempty d 0 u us

pub anchor_after-past :
    (target m : ℕ) (folders : List ℕ)
    → newest_or target folders ≡ m
    → target < m - 1
    → anchor_after target (some folders) ≡ re_anchor (m - 1)
unfolding anchor_after
anchor_after-past target m folders newest past =
    let over = lt→leb (m - 1) target past in
    let ahead = lt→ltb target (m - 1) past in rw (newest, over, ahead)

-- The poll at the limit, of a volume of which no key was seen, with the newest folder.
pub act-anchors :
    (v n : ℕ) (p : Poller) (folders : List ℕ)
    → Waiting v false n p
    → n + 1 ≡ reanchor_empty_polls
    → v + 2 < 18446744073709551616
    → v + 3 ≤ newest_or 0 folders
    → let q = count_empty_poll v p in
      (act (next_target (poll_state (inc_u64 v) q) (some folders)) true (inc_u64 v) q).0
      ≡ move_to (newest_or 0 folders - 1) q
unfolding count_empty_poll next_target act
act-anchors v n p folders waiting due fits newest =
    let target = inc_u64 v in
    let m = newest_or 0 folders in
    let many =
      le→leb reanchor_empty_polls (inc_u32 p.consecutive_empty_polls) (omega (arith, waiting.2)) in
    let past =
      anchor_after-past target m folders (newest_or-positive target folders (omega arith))
        (omega arith) in
    rw (waiting.1, many, past)

-- The poll at the limit, of a volume of which a key was seen.
pub act-advances :
    (v n : ℕ) (p : Poller)
    → Waiting v true n p
    → n + 1 ≡ stuck_mid_volume_empty_polls
    → let q = count_empty_poll v p in
      (act (next_target (poll_state (inc_u64 v) q) none) false (inc_u64 v) q).0
      ≡ move_to (inc_u64 (inc_u64 v)) q
unfolding count_empty_poll next_target act
act-advances v n p waiting due =
    let many =
      le→leb stuck_mid_volume_empty_polls (inc_u32 p.consecutive_empty_polls)
        (omega (arith, waiting.2)) in
    rw (waiting.1, many)
