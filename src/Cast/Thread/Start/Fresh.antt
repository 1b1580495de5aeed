-- ===== src/Cast/Thread/Start/Fresh.antt =====
-- src/cast.rs: the thread as its loop begins.
use unicast.Base.{List, codes, u32_max, refl, true, Platform}
use unicast.Daemon.State.{Session}
use unicast.Daemon.Poll.{Entry}
use unicast.Cast.Load.{Holds, Holds-bind, context, attempt}
use unicast.Cast.Thread.Quiet.{Quiet-trans, count}
use unicast.Cast.Thread.Commands.Obeying.{publish_status-Quiet, publish_answer-Quiet}
use unicast.Cast.Thread.Start.{Job, Setup, start, started, loaded_thread, first_load, ready_result}
use unicast.Cast.Thread.Rounds.Closing.{Tallied, Quiet-Tallied}

module _ (platform : Platform) where
  open platform use {F64}

  started-Tallied :
      (job : Job F64) (setup : Setup F64) (session : Session F64) (entries : List (Entry F64))
      → Tallied (started platform job setup session entries)
  unfolding started loaded_thread first_load count
  started-Tallied job setup session entries =
      Quiet-Tallied
        (Quiet-trans
          (publish_status-Quiet platform true u32_max entries
            (loaded_thread platform job setup session entries))
          (publish_answer-Quiet platform true setup.volume _))
        (record { events = refl; stops = refl })

  -- A thread that starts has announced and stopped nothing.
  pub start-Tallied :
      (job : Job F64) (setup : Setup F64) (session : Session F64)
      → Holds Tallied (start platform job setup session)
  unfolding start
  start-Tallied job setup session =
      Holds-bind Tallied (ready_result platform job setup) _ λ entries.
        Holds-bind Tallied
          (context (codes "could not configure cast socket: ") (attempt setup.poll_timeout_error)) _
          λ _. started-Tallied job setup session entries
