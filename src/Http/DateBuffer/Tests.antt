-- ===== src/Http/DateBuffer/Tests.antt =====
-- Runs of the date buffer, and its theorems at a date and at a race.
use libnodecc.Prelude.{◌≡◌, refl, arith, codes, true, [], ◌∷◌, some, ◌>>=◌}
use libnodecc.Http.DateBuffer.{Tm, update_buffer, is_stale, compare_exchange, locked_update}
use libnodecc.Http.DateBuffer.RoundTrip.{IsTm, read_date, read_date-update_buffer}
use libnodecc.Http.DateBuffer.Races.{
  World, Step, Steps, new, load, exchange, exchange_from, Updated, Steps-Updated,
}

abbrev tuesday : Tm
tuesday = record {
  tm_wday = 2;
  tm_mday = 15;
  tm_mon = 10;
  tm_year = 94;
  tm_hour = 12;
  tm_min = 45;
  tm_sec = 26;
}

tuesday_line : update_buffer true tuesday ≡ some (codes "date: Tue, 15 Nov 1994 12:45:26 GMT\r\n")
unfolding update_buffer
tuesday_line = refl

tuesday-IsTm : IsTm tuesday
tuesday-IsTm = record {
  wday_lt = omega arith;
  mday_le = omega arith;
  mon_lt = omega arith;
  year_le = omega arith;
  hour_lt = omega arith;
  min_lt = omega arith;
  sec_le = omega arith;
}

read_date-update_buffer_example : (update_buffer true tuesday >>= read_date) ≡ some tuesday
read_date-update_buffer_example = read_date-update_buffer tuesday tuesday-IsTm

-- Two threads find the date stale; the first of them makes it anew.
abbrev raced : World
raced = exchange 1 (exchange 0 (load 1 602 (load 0 601 new)))

raced_once : raced.updates ≡ 601 ∷ []
unfolding load exchange exchange_from is_stale compare_exchange
raced_once = refl

race : Steps new raced
unfolding load exchange exchange_from is_stale compare_exchange
race =
    Steps.after
      (Steps.after
        (Steps.after (Steps.after Steps.done (Step.loads 0 601 refl)) (Step.loads 1 602 refl))
        (Step.exchanges 0))
      (Step.exchanges 1)

Steps-Updated_example : Updated raced
Steps-Updated_example = Steps-Updated race

-- Without atomics the date is made anew at each call from the first half second on.
locked_again : locked_update 10000 (locked_update 9999 0).1 ≡ (true, 0)
unfolding locked_update
locked_again = refl
