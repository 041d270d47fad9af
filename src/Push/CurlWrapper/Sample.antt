-- ===== src/Push/CurlWrapper/Sample.antt =====
-- A libcurl for tests, which records what it is asked and answers from a list of response codes.
use prometheus_cpp.Common.{
  ℕ, suc, ◌-◌, Bool, true, List, [], ◌∷◌, ◌++◌, Bytes, if◌then◌else◌, refl, arith,
}
use prometheus_cpp.Push.CurlWrapper.{Setting, Curl}
use prometheus_cpp.Push.CurlWrapper.Isolated.{Remembers}
use prometheus_cpp.Push.CurlWrapper.Held.{Held, Tracks}

pub record Recorder : Type 0 where
  pub settings : List Setting
  pub held : Held
  -- Whether there is memory for a header list.
  pub room : Bool
  pub code : ℕ
  pub responses : List ℕ
  -- The settings of each request that was performed.
  pub performed : List (List Setting)

abbrev perform_request : Recorder → ℕ × Recorder
perform_request h = elim h.responses [
  | [] ↦ (7, h)
  | code ∷ responses ↦ (
    0,
    record h { code = code; responses = responses; performed = h.performed ++ h.settings ∷ [] },
  )
]

abbrev append_text : List Bytes → Bytes → Recorder → Bool × Recorder
append_text (t ∷ ts) text h = (h.room, h)
append_text [] text h = (
  h.room,
  record h { held = if h.room then record h.held { lists = suc h.held.lists } else h.held },
)

abbrev pub recorder : Curl Recorder
recorder = record {
  global_init = λ h. (0, record h { held = record h.held { inits = suc h.held.inits } });
  global_cleanup = λ h. record h { held = record h.held { inits = h.held.inits - 1 } };
  easy_init = λ h. (true, record h { held = record h.held { handles = suc h.held.handles } });
  easy_cleanup = λ h. record h { held = record h.held { handles = h.held.handles - 1 } };
  easy_reset = λ h. record h { settings = [] };
  setopt = λ s h. record h { settings = h.settings ++ s ∷ [] };
  perform = perform_request;
  response_code = λ h. h.code;
  slist_append = append_text;
  slist_free_all = λ h. record h { held = record h.held { lists = h.held.lists - 1 } };
}

-- A recorder with nothing recorded.
abbrev pub recorder_with : Bool → List ℕ → Recorder
recorder_with room responses = record {
  settings = [];
  held = record { inits = 0; handles = 0; lists = 0 };
  room = room;
  code = 0;
  responses = responses;
  performed = [];
}

pub recorder-Remembers : Remembers recorder (λ h. h.settings)
recorder-Remembers = record { reset = λ h. refl; set = λ s h. refl }

pub recorder-Tracks : Tracks recorder (λ h. h.held)
recorder-Tracks = record {
  init_ok = λ h q. refl;
  init_failed = λ h q. absurd (q refl);
  easy_ok = λ h q. refl;
  easy_failed = λ h q. ground arith;
  append_ok = λ t h q. rw (q) refl;
  append_failed = λ t h q. rw (q) refl;
  global_cleaned = λ h. refl;
  easy_cleaned = λ h. refl;
  freed = λ h. refl;
}
