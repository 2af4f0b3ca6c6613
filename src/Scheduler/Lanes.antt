-- ===== src/Scheduler/Lanes.antt =====
-- scheduler/lanes.py: the lanes, their priorities, and the low and the hot ones.
use open_webui_memorist_edit.Prelude.{ℕ, Bool, true, false, ◌==◌}

pub data Lane : Type 0 where
  critical_privacy live_chat_capture preflight_persist assistant_capture : Lane
  memory_extraction import_commit import_reconstruction graph_projection : Lane
  embedding_index block_rebuild maintenance : Lane

unfoldable pub lane_priority : Lane → ℕ
lane_priority critical_privacy = 110
lane_priority live_chat_capture = 100
lane_priority preflight_persist = 95
lane_priority assistant_capture = 90
lane_priority memory_extraction = 60
lane_priority import_commit = 40
lane_priority import_reconstruction = 30
lane_priority graph_projection = 25
lane_priority embedding_index = 25
lane_priority block_rebuild = 20
lane_priority maintenance = 10

abbrev pub is_low_priority : Lane → Bool
is_low_priority import_commit = true
is_low_priority import_reconstruction = true
is_low_priority graph_projection = true
is_low_priority embedding_index = true
is_low_priority block_rebuild = true
is_low_priority maintenance = true
is_low_priority _ = false

abbrev pub is_hot : Lane → Bool
is_hot critical_privacy = true
is_hot live_chat_capture = true
is_hot preflight_persist = true
is_hot assistant_capture = true
is_hot _ = false

-- The position of a lane in the enumeration, by which two lanes are told apart.
abbrev pub lane_index : Lane → ℕ
lane_index critical_privacy = 0
lane_index live_chat_capture = 1
lane_index preflight_persist = 2
lane_index assistant_capture = 3
lane_index memory_extraction = 4
lane_index import_commit = 5
lane_index import_reconstruction = 6
lane_index graph_projection = 7
lane_index embedding_index = 8
lane_index block_rebuild = 9
lane_index maintenance = 10

unfoldable pub lane_eq : Lane → Lane → Bool
lane_eq a b = lane_index a == lane_index b
