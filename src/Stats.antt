-- ===== src/Stats.antt =====
-- src/stats.c: get_probe_stats, on what it reads from the files of the operating system.
--
-- A file that cannot be read is `none`. The quotients, which the code computes in float, are kept as
-- numerator and denominator. Of the difference of two unsigned numbers as a float, only `<= 0`
-- is asked, which holds when it is 0.
use impd4e.Common.{
  ℕ, ◌+◌, ◌-◌, ◌*◌, ◌^◌, ◌≤◌, ◌<◌, Bool, true, false, ◌==◌, if◌then◌else◌, Option, none, some, u64,
  ◌≡◌, arith,
}

-- The fields of struct proc_stat_cpu, of struct proc_pid_stat and of get_mem_usage that are used.
pub record ProcStatCpu : Type 0 where
  pub user : ℕ
  pub nice : ℕ
  pub system : ℕ
  pub idle : ℕ

pub record ProcPidStat : Type 0 where
  pub utime : ℕ
  pub stime : ℕ
  pub vsize : ℕ
  pub rss : ℕ

pub record MemUsage : Type 0 where
  pub total : ℕ
  pub free : ℕ

-- What the calls of get_proc_stat and get_proc_pid_stat in the first execution read, and those of every
-- execution, in their order.
pub record Readings : Type 0 where
  pub first_cpu : Option ProcStatCpu
  pub first_process : Option ProcPidStat
  pub mem : Option MemUsage
  pub process : Option ProcPidStat
  pub cpu : Option ProcStatCpu

-- The static variables that a later execution reads.
pub record Statics : Type 0 where
  pub first_execution : Bool
  pub process : ProcPidStat
  pub cpu : ProcStatCpu
  pub cpu_total : ℕ

-- `missing` is STATS_MISSING.
pub data Stat : Type 0 where
  missing : Stat
  share : ℕ → ℕ → Stat
  amount : ℕ → Stat

-- `none` is a field that nothing sets.
pub record Measured : Type 0 where
  pub system_cpu_idle : Stat
  pub process_cpu_user : Stat
  pub process_cpu_sys : Stat
  pub system_mem_free : Stat
  pub system_mem_total : Option Stat
  pub process_mem_vzs : Stat
  pub process_mem_rss : Stat

all_missing : Measured
all_missing = record {
  system_cpu_idle = missing;
  process_cpu_user = missing;
  process_cpu_sys = missing;
  system_mem_free = missing;
  system_mem_total = none;
  process_mem_vzs = missing;
  process_mem_rss = missing;
}

-- `a - b` on 64 bits.
abbrev sub64 : ℕ → ℕ → ℕ
sub64 a b = u64 (a + 2 ^ 64 - b)

cpu_sum : ProcStatCpu → ℕ
cpu_sum cpu = u64 (cpu.user + cpu.nice + cpu.system + cpu.idle)

pub record Execution : Type 0 where
  pub statics : Statics
  pub returned : Bool
  pub stat : Measured

abbrev failing : Statics → Execution
failing statics = record { statics = statics; returned = false; stat = all_missing }

-- The first execution, `none` where it returns -1, with the static variables then.
pub begin_execution : Readings → Statics → Statics × Bool
unfolding cpu_sum
begin_execution readings s =
    if s.first_execution
    then elim readings.first_cpu [
      | none ↦ (s, false)
      | some cpu ↦ elim readings.first_process [
        | none ↦ (record s { cpu = cpu }, false)
        | some process ↦
            (let before = record cpu { idle = sub64 cpu.idle 1 } in
              (
                record {
                  first_execution = false;
                  process = process;
                  cpu = before;
                  cpu_total = cpu_sum before;
                },
                true,
              ))
      ]
    ]
    else (s, true)

-- From "set all values" on, for the static variables of before and the numbers read now.
measure : ℕ → Statics → MemUsage → ProcPidStat → ProcStatCpu → Execution
unfolding cpu_sum all_missing
measure pagesize s mem process cpu =
    let total = cpu_sum cpu in
    let delta = sub64 total s.cpu_total in
    let statics : Statics = record {
      first_execution = s.first_execution;
      process = process;
      cpu = cpu;
      cpu_total = total;
    } in
    if delta == 0 then failing statics else record {
      statics = statics;
      returned = true;
      stat = record {
        system_cpu_idle = share (sub64 cpu.idle s.cpu.idle) delta;
        process_cpu_sys = share (sub64 process.stime s.process.stime) delta;
        process_cpu_user = share (sub64 process.utime s.process.utime) delta;
        system_mem_free = amount mem.free;
        system_mem_total = some (amount mem.total);
        process_mem_vzs = amount process.vsize;
        process_mem_rss = amount (u64 (process.rss * pagesize));
      };
    }

-- `pagesize` is what getpagesize returns.
unfoldable pub get_probe_stats : ℕ → Readings → Statics → Execution
unfolding begin_execution measure all_missing
get_probe_stats pagesize readings s =
    let begun = begin_execution readings s in
    if begun.1
    then elim readings.mem [
      | none ↦ failing begun.0
      | some mem ↦ elim readings.process [
        | none ↦ failing begun.0
        | some process ↦ elim readings.cpu [
          | none ↦ failing (record begun.0 { process = process })
          | some cpu ↦ measure pagesize begun.0 mem process cpu
        ]
      ]
    ]
    else failing begun.0

-- Counters that did not run backwards, and do not reach 2^64.
abbrev pub IsLater : ProcStatCpu → ProcStatCpu → Type 0
IsLater old new =
    (old.user ≤ new.user)
    × (old.nice ≤ new.nice)
    × (old.system ≤ new.system)
    × (old.idle ≤ new.idle)
    × (new.user + new.nice + new.system + new.idle < 2 ^ 64)

-- A share between 0 and 1.
abbrev pub IsShare : Stat → Type 0
IsShare missing = ⊥
IsShare (share n d) = (n ≤ d) × (0 < d)
IsShare (amount n) = ⊥

-- The first execution returns 0 when all files can be read, the counters of the CPU do not run backwards between
-- its two readings and the CPU was idle before, even if no tick passes between them; the share of
-- idle time is then between 0 and 1, and every field is set.
get_probe_stats_first :
    (pagesize : ℕ) (s : Statics) (cpu cpu' : ProcStatCpu) (process process' : ProcPidStat)
    (mem : MemUsage)
    → s.first_execution ≡ true
    → IsLater cpu cpu'
    → 0 < cpu.idle
    → let r =
        get_probe_stats pagesize
          (record {
            first_cpu = some cpu;
            first_process = some process;
            mem = some mem;
            process = some process';
            cpu = some cpu';
          })
          s in
      (r.returned ≡ true)
      × (r.statics.first_execution ≡ false)
      × IsShare r.stat.system_cpu_idle
      × (r.stat.system_mem_total ≡ some (amount mem.total))
      × (r.stat.system_mem_free ≡ amount mem.free)
unfolding get_probe_stats begin_execution measure cpu_sum
get_probe_stats_first pagesize s cpu cpu' process process' mem first later idle = ground arith
