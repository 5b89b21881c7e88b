-- ===== src/Backup/Schedule/Laws.antt =====
-- The operations on the file keep its schedules within the range of a clock and a short month.
use virt_pilot.Common.{
  ℕ, ◌≤◌, ◌≡◌, refl, ap, ◌∙◌, subst, Bool, true, false, Option, none, some, [], ◌∷◌, All,
  if◌then◌else◌, String, same, arith,
}
use virt_pilot.Backup.Schedule.Types.{Schedule, IsTimely}
use virt_pilot.Backup.Schedule.Next.{Calendar}
use virt_pilot.Backup.Schedule.Store.{
  Schedules, File, missing, corrupt, stored, read_schedules, with_schedule, write_schedules,
  save_schedule,
}
use virt_pilot.Backup.Schedule.Put.{
  Body, Given, left_out, bad, number, is_frequency, non_negative_int, positive_int, or_else, field,
  build_schedule, with_next, planned, from_numbers,
}

-- A schedule that the planner can follow.
pub record IsSound (s : Schedule) : Type 0 where
  pub timely : IsTimely s
  pub known : is_frequency s.frequency ≡ true

abbrev pub AllSound : Schedules → Type 0
AllSound all = All (λ e. IsSound e.1) all

abbrev pub FileSound : File → Type 0
FileSound missing = Unit {0}
FileSound corrupt = Unit {0}
FileSound (stored all) = AllSound all

pub with_schedule-AllSound :
    (uuid : String) (s : Schedule) (all : Schedules)
    → IsSound s
    → AllSound all
    → AllSound (with_schedule uuid s all)
unfolding with_schedule
with_schedule-AllSound uuid s [] v h = (v, tt)
with_schedule-AllSound uuid s ((u, old) ∷ all) v h =
    elim (same u uuid)
      as (λ b. AllSound (if b then (u, s) ∷ all else (u, old) ∷ with_schedule uuid s all)) [
        | true ↦ (v, h.1)
        | false ↦ (h.0, with_schedule-AllSound uuid s all v h.1)
      ]

pub write_schedules-FileSound :
    (writes : Bool) (file : File) (all : Schedules)
    → FileSound file
    → AllSound all
    → FileSound (write_schedules writes file all).file
unfolding write_schedules
write_schedules-FileSound true file all h k = k
write_schedules-FileSound false file all h k = h

pub save_schedule-FileSound :
    (writes : Bool) (s : Schedule) (file : File)
    → IsSound s
    → FileSound file
    → FileSound (save_schedule writes s file).file
unfolding save_schedule read_schedules
save_schedule-FileSound writes s missing v h =
    write_schedules-FileSound writes missing _ tt (with_schedule-AllSound s.vm_uuid s [] v tt)
save_schedule-FileSound writes s corrupt v h = tt
save_schedule-FileSound writes s (stored all) v h =
    write_schedules-FileSound writes (stored all) _ h (with_schedule-AllSound s.vm_uuid s all v h)

non_negative_int_bound :
    (g : Given) (most kept n : ℕ) → kept ≤ most → non_negative_int g most kept ≡ some n → n ≤ most
non_negative_int_bound left_out most kept n h e = ground (arith, e, h)
non_negative_int_bound bad most kept n h e = absurd (ground (arith, e))
non_negative_int_bound (number m) most kept n h e = ground (arith, e)

positive_int_bound :
    (g : Given) (most kept n : ℕ)
    → 1 ≤ kept
    → kept ≤ most
    → positive_int g most kept ≡ some n
    → (1 ≤ n) × (n ≤ most)
positive_int_bound left_out most kept n l h e = (ground (arith, e, l), ground (arith, e, h))
positive_int_bound bad most kept n l h e = absurd (ground (arith, e))
positive_int_bound (number m) most kept n l h e = (ground (arith, e), ground (arith, e))

abbrev pub OptionSound : Option Schedule → Type 0
OptionSound none = Unit {0}
OptionSound (some s) = IsSound s

-- What is stored, or the default.
kept_bound :
    (f : Schedule → ℕ) (most default : ℕ) (existing : Option Schedule)
    → ((s : Schedule) → IsSound s → f s ≤ most)
    → default ≤ most
    → OptionSound existing
    → or_else (field f existing) default ≤ most
kept_bound f most default none k d h = d
kept_bound f most default (some s) k d h = k s h

kept_day :
    (existing : Option Schedule)
    → OptionSound existing
    → (1 ≤ or_else (field (λ x. x.day_of_month) existing) 1)
      × (or_else (field (λ x. x.day_of_month) existing) 1 ≤ 28)
kept_day none h = (omega arith, omega arith)
kept_day (some s) h = (h.timely.month_positive, h.timely.month_small)

-- Only the frequency and the numbers count.
pub resound :
    (s t : Schedule)
    → t.frequency ≡ s.frequency
    → t.hour ≡ s.hour
    → t.minute ≡ s.minute
    → t.day_of_week ≡ s.day_of_week
    → t.day_of_month ≡ s.day_of_month
    → IsSound s
    → IsSound t
resound s t f h m w d v = record {
  timely = record {
    hour_small = omega (arith, h, v.timely.hour_small);
    minute_small = omega (arith, m, v.timely.minute_small);
    week_small = omega (arith, w, v.timely.week_small);
    month_positive = omega (arith, d, v.timely.month_positive);
    month_small = omega (arith, d, v.timely.month_small);
  };
  known = ap is_frequency f ∙ v.known;
}

with_next-IsSound :
    (s : Schedule) (o : Option ℕ) (s' : Schedule) → IsSound s → with_next s o ≡ some s' → IsSound s'
with_next-IsSound s none s' v e = absurd (ground (arith, e))
with_next-IsSound s (some n) s' v e =
    subst OptionSound e (resound s (record s { next_run_at = some n }) refl refl refl refl refl v)

module _ (cal : Calendar) where
  from_numbers-IsSound :
      (uuid name : String) (body : Body) (now : ℕ) (existing : Option Schedule)
      (h m w d f : Option ℕ) (s : Schedule)
      → is_frequency body.frequency ≡ true
      → ((n : ℕ) → h ≡ some n → n ≤ 23)
      → ((n : ℕ) → m ≡ some n → n ≤ 59)
      → ((n : ℕ) → w ≡ some n → n ≤ 6)
      → ((n : ℕ) → d ≡ some n → (1 ≤ n) × (n ≤ 28))
      → from_numbers cal now uuid name body existing h m w d f ≡ some s
      → IsSound s
  from_numbers-IsSound uuid name body now existing (some h) (some m) (some w) (some d) (some f) s k
        bh bm bw bd e =
      with_next-IsSound (planned uuid name body existing h m w d f) _ s
        (record {
          timely = record {
            hour_small = bh h refl;
            minute_small = bm m refl;
            week_small = bw w refl;
            month_positive = (bd d refl).0;
            month_small = (bd d refl).1;
          };
          known = k;
        })
        e
  from_numbers-IsSound uuid name body now existing none m w d f s k bh bm bw bd e =
      absurd (ground (arith, e))
  from_numbers-IsSound uuid name body now existing (some h) none w d f s k bh bm bw bd e =
      absurd (ground (arith, e))
  from_numbers-IsSound uuid name body now existing (some h) (some m) none d f s k bh bm bw bd e =
      absurd (ground (arith, e))
  from_numbers-IsSound uuid name body now existing (some h) (some m) (some w) none f s k bh bm bw bd
        e =
      absurd (ground (arith, e))
  from_numbers-IsSound uuid name body now existing (some h) (some m) (some w) (some d) none s k bh
        bm bw bd e =
      absurd (ground (arith, e))

  pub build_schedule-IsSound :
      (now : ℕ) (uuid name : String) (body : Body) (existing : Option Schedule) (s : Schedule)
      → is_frequency body.frequency ≡ true
      → OptionSound existing
      → build_schedule cal now uuid name body existing ≡ some s
      → IsSound s
  unfolding build_schedule
  build_schedule-IsSound now uuid name body existing s known old e =
      from_numbers-IsSound uuid name body now existing _ _ _ _ _ s known
        (λ n.
          non_negative_int_bound body.hour 23 _ n
            (kept_bound (λ x. x.hour) 23 2 existing (λ x v. v.timely.hour_small) (omega arith) old))
        (λ n. non_negative_int_bound body.minute 59 _ n (
          kept_bound (λ x. x.minute) 59 0 existing (λ x v. v.timely.minute_small) (omega arith)
            old))
        (λ n. non_negative_int_bound body.day_of_week 6 _ n (
          kept_bound (λ x. x.day_of_week) 6 1 existing (λ x v. v.timely.week_small) (omega arith)
            old))
        (λ n.
          positive_int_bound body.day_of_month 28 _ n (kept_day existing old).0
            (kept_day existing old).1)
        e
