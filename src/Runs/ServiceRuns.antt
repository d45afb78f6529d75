-- ===== src/Runs/ServiceRuns.antt =====
-- Runs of the Windows service.
use monidroid.Base.{◌≡◌, refl, arith, false, none, some, [], ◌∷◌}
use monidroid.Service.{
  LaunchCalls, exited, ServiceState, Service, stop, interrogate, asked, WaitEnd, controlled,
  session, svc_main, svc_ctrl_handler,
}
use monidroid.Service.Reports.{Counts, svc_main-Counts}

abbrev service : Service
service = record {
  status = record {
    current_state = ServiceState.stopped;
    exit_code = 0;
    wait_hint = 0;
    accepts = false;
    check_point = 0;
  };
  next_check_point = 1;
  reports = [];
  stop_set = false;
  terminated = false;
  handles = [];
}

-- The log file cannot be created.
abbrev no_file : LaunchCalls
no_file = record {
  open_token = none;
  duplicate_token = none;
  set_session = none;
  create_file = some 5;
  create_process = none;
}

abbrev launches : LaunchCalls
launches = record {
  open_token = none;
  duplicate_token = none;
  set_session = none;
  create_file = none;
  create_process = none;
}

abbrev interrogated : WaitEnd
interrogated = controlled interrogate

svc_main-Counts_example :
    (s' : Service) × (svc_main none
        (session launches (stop ∷ []) (some (asked (exited 0))) ∷ [])
        service
      ≡ some s')
    × Counts s'
    × Counts (svc_ctrl_handler stop service).0
    × Counts (svc_ctrl_handler stop s').0
svc_main-Counts_example =
    svc_main-Counts none (session launches (stop ∷ []) (some (asked (exited 0))) ∷ []) service stop
      refl (omega arith, tt)
