-- ===== src/Health/Bursts.antt =====
-- The counters of bursts and their totals, under any sequence of calls.
use tycho_simulation_server.Base.{
  ℕ, ◌≤◌, ◌<◌, ◌≡◌, refl, Bool, true, false, ltb, Bool-cases, inl, inr, List, [], ◌∷◌, Option, none,
  some, Text, if◌then◌else◌, max_u64, arith,
}
use tycho_simulation_server.Health.{
  Health, Window, new_health, saturating_succ, is_none, or_now, close_expired, count_burst,
  mark_started, mark_started_preserving_head, record_update, record_progress, record_missing_block,
  record_error, record_advanced, clear_advanced, increment_restart, reset_bursts, set_last_error,
}

-- A call of the interface that changes the data.
pub data Call : Type 0 where
  starts : ℕ → Call
  starts_preserving : ℕ → Call
  updates progresses missing_block errors : ℕ → ℕ → Call
  advances : ℕ → Call
  clears restarts resets : Call
  fails : Option Text → Call

unfoldable pub apply : Call → Health → Health
unfolding mark_started mark_started_preserving_head record_update record_progress
    record_missing_block record_error record_advanced clear_advanced increment_restart reset_bursts
    set_last_error
apply (starts now) h = mark_started now h
apply (starts_preserving now) h = mark_started_preserving_head now h
apply (updates now block) h = record_update now block h
apply (progresses now block) h = record_progress now block h
apply (missing_block now window) h = (record_missing_block now window h).1
apply (errors now window) h = (record_error now window h).1
apply (advances now) h = (record_advanced now h).1
apply clears h = clear_advanced h
apply restarts h = (increment_restart h).1
apply resets h = reset_bursts h
apply (fails message) h = set_last_error message h

unfoldable pub apply_all : List Call → Health → Health
unfolding apply
apply_all [] h = h
apply_all (c ∷ cs) h = apply_all cs (apply c h)

-- A burst is part of its total, and there is none without an open window.
pub record Counts (total : ℕ) (burst : ℕ) (start : Option ℕ) : Type 0 where
  pub is_part : burst ≤ total
  pub needs_window : start ≡ none → burst ≡ 0
  pub in_range : total ≤ max_u64

pub record IsValid (h : Health) : Type 0 where
  pub missing : Counts h.missing_block_total h.missing_block_burst h.missing_block_window_start
  pub errored : Counts h.error_total h.error_burst h.error_window_start
  pub advanced : Counts h.advanced_total h.advanced_burst h.advanced_window_start

reset-Counts : (total burst : ℕ) (start : Option ℕ) → Counts total burst start → Counts total 0 none
reset-Counts total burst start c = record {
  is_part = omega arith;
  needs_window = λ e. refl;
  in_range = c.in_range;
}

if-Counts :
    (total : ℕ) (b : Bool) (v w : Window)
    → Counts total v.burst v.start
    → Counts total w.burst w.start
    → Counts total (if b then v else w).burst (if b then v else w).start
if-Counts total true v w c d = c
if-Counts total false v w c d = d

close-Counts :
    (now window total : ℕ) (w : Window)
    → Counts total w.burst w.start
    → Counts total (close_expired now window w).burst (close_expired now window w).start
unfolding close_expired
close-Counts now window total w c =
    if-Counts total _ (record { burst = 0; start = none }) w (reset-Counts total w.burst w.start c)
      c

succ_le : (a b : ℕ) → a ≤ b → saturating_succ a ≤ saturating_succ b
succ_le a b h = ground arith

succ_range : (a : ℕ) → saturating_succ a ≤ max_u64
succ_range a = ground arith

succ_one : (n : ℕ) → n ≡ 0 → saturating_succ n ≡ 1
succ_one n h = ground arith

succ_positive : (n : ℕ) → 0 < saturating_succ n
succ_positive n = ground arith

has_window : (s : Option ℕ) (now n : ℕ) → or_now s now ≡ none → n ≡ 0
has_window none now n h = cc
has_window (some t) now n h = cc

opened : (s : Option ℕ) → is_none s ≡ true → s ≡ none
opened none h = refl
opened (some t) h = cc

next-Counts :
    (total burst now : ℕ) (s : Option ℕ)
    → Counts total burst s
    → Counts (saturating_succ total) (saturating_succ burst) (or_now s now)
next-Counts total burst now s c = record {
  is_part = succ_le burst total c.is_part;
  needs_window = has_window s now (saturating_succ burst);
  in_range = succ_range total;
}

count-Counts :
    (now window total : ℕ) (w : Window)
    → Counts total w.burst w.start
    → Counts
        (saturating_succ total)
        (count_burst now window w).1.burst
        (count_burst now window w).1.start
unfolding count_burst
count-Counts now window total w c = next-Counts total _ now _ (close-Counts now window total w c)

advance-Counts :
    (total burst now : ℕ) (s : Option ℕ)
    → Counts total burst s
    → Counts
        (saturating_succ total)
        (saturating_succ (if is_none s then 0 else burst))
        (or_now s now)
advance-Counts total burst now none c =
    next-Counts total 0 now none (reset-Counts total burst none c)
advance-Counts total burst now (some t) c = next-Counts total burst now (some t) c

progress-IsValid : (now block : ℕ) (h : Health) → IsValid h → IsValid (record_progress now block h)
unfolding record_progress
progress-IsValid now block h v = elim (Bool-cases (ltb h.last_block block)) [
  | inl t ↦ rw t record { missing = v.missing; errored = v.errored; advanced = v.advanced }
  | inr f ↦ rw f v
]

-- Whatever is recorded, each burst stays within its total and there is none without an open window.
pub apply-IsValid : (c : Call) (h : Health) → IsValid h → IsValid (apply c h)
unfolding apply
apply-IsValid (starts now) h v = record {
  missing = v.missing;
  errored = v.errored;
  advanced = v.advanced;
}
apply-IsValid (starts_preserving now) h v = record {
  missing = v.missing;
  errored = v.errored;
  advanced = v.advanced;
}
apply-IsValid (updates now block) h v = record {
  missing = v.missing;
  errored = v.errored;
  advanced = v.advanced;
}
apply-IsValid (progresses now block) h v = progress-IsValid now block h v
apply-IsValid (missing_block now window) h v = record {
  missing = count-Counts now window h.missing_block_total _ v.missing;
  errored = v.errored;
  advanced = v.advanced;
}
apply-IsValid (errors now window) h v = record {
  missing = v.missing;
  errored = count-Counts now window h.error_total _ v.errored;
  advanced = v.advanced;
}
apply-IsValid (advances now) h v = record {
  missing = v.missing;
  errored = v.errored;
  advanced =
      advance-Counts h.advanced_total h.advanced_burst now h.advanced_window_start v.advanced;
}
apply-IsValid clears h v = record {
  missing = v.missing;
  errored = v.errored;
  advanced = reset-Counts _ _ _ v.advanced;
}
apply-IsValid restarts h v = record {
  missing = v.missing;
  errored = v.errored;
  advanced = v.advanced;
}
apply-IsValid resets h v = record {
  missing = reset-Counts _ _ _ v.missing;
  errored = reset-Counts _ _ _ v.errored;
  advanced = reset-Counts _ _ _ v.advanced;
}
apply-IsValid (fails message) h v = record {
  missing = v.missing;
  errored = v.errored;
  advanced = v.advanced;
}

new_health-IsValid : IsValid new_health
new_health-IsValid =
    let none_yet : Counts 0 0 none = record {
      is_part = omega arith;
      needs_window = λ e. refl;
      in_range = omega arith;
    } in
    record { missing = none_yet; errored = none_yet; advanced = none_yet }

run-IsValid : (cs : List Call) (h : Health) → IsValid h → IsValid (apply_all cs h)
unfolding apply_all
run-IsValid [] h v = v
run-IsValid (c ∷ cs) h v = run-IsValid cs (apply c h) (apply-IsValid c h v)

-- After any calls on a new health, in any order, each burst is at most its total, and 0 without an
-- open window.
pub apply_all-IsValid : (cs : List Call) → IsValid (apply_all cs new_health)
apply_all-IsValid cs = run-IsValid cs new_health new_health-IsValid
