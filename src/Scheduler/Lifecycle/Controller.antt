-- ===== src/Scheduler/Lifecycle/Controller.antt =====
-- internal/scheduler/scheduler.go: the scheduler keeps what the handler relies on.
use go_message_dispatcher.Base.{◌≡◌, true, false, arith}
use go_message_dispatcher.Scheduler.Lifecycle.{Life, start, stop, controller}
use go_message_dispatcher.Handler.Answers.{IsController}

start_running : (s : Life) → (start s).running ≡ true
unfolding start
start_running s = ground arith

stop_running : (s : Life) → (stop s).running ≡ false
unfolding stop
stop_running s = ground arith

pub controller-IsController : IsController controller
controller-IsController = record {
  start-ok = λ s e. start_running s;
  stop-ok = λ s e. stop_running s;
}
