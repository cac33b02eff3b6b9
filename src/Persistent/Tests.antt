-- ===== src/Persistent/Tests.antt =====
-- demo/SpeechPersistentDemo/SpeechPersistent.c at small inputs.
use program_learning.Prelude.{
  ◌+◌, ◌/◌, ◌%◌, ◌≡◌, refl, inl, inr, true, false, some, none, List, [], ◌∷◌, ◌++◌, arith, length,
  get_elem?, replicate,
}
use program_learning.Prelude.Int.{pos, negsuc}
use program_learning.Prelude.Text.{Text, codes}
use program_learning.Files.{plain}
use program_learning.ThreadPool.{Pool, create, no_task, add_task}
use program_learning.Persistent.{
  PersistentHandle, start, asr, nlp, stop, text, handle, released, Call, access, mkdir, write,
  close, remove, upload, malloc_handle, malloc_buffer, System, World, default_local,
  max_persistent_count, max_path_index,
}
use program_learning.Persistent.Names.{Tm, ◌</>◌, c_string, id_text, get_id_by_time}
use program_learning.Persistent.Tasks.{
  start_task, stop_task, process_task, upload_task, do_check_and_trigger_upload,
}
use program_learning.Persistent.Service.{process_function, speech_process}
use program_learning.Persistent.Saving.{process_task-saves}
use program_learning.Persistent.Writing.{ended, name_left, calls_made}
use program_learning.Persistent.Requests.{after_adding, speech_process-asks}
use program_learning.Persistent.Rotation.{
  uploads, times, do_check_and_trigger_upload-counts, upload_task-breaks,
}
use program_learning.Persistent.Ids.{InRange, get_id_by_time-fits, id_text-inj}
use program_learning.Persistent.Start.{Makes, making, started, start_task-folders}
use program_learning.Persistent.Stop.{stopped, stop_task-ends}

-- A system where everything succeeds, and one where writes fail.
abbrev calm : System
calm calls (access p) = true
calm calls (mkdir p) = none
calm calls (Call.create p) = pos 3
calm calls (write fd bytes) = pos (length bytes)
calm calls (close fd) = tt
calm calls (remove p) = plain true
calm calls (upload p) = tt
calm calls malloc_handle = true
calm calls (malloc_buffer n) = true

abbrev full : System
full calls (access p) = true
full calls (mkdir p) = none
full calls (Call.create p) = pos 3
full calls (write fd bytes) = negsuc 0
full calls (close fd) = tt
full calls (remove p) = plain true
full calls (upload p) = tt
full calls malloc_handle = true
full calls (malloc_buffer n) = true

abbrev device : Text
device = codes "UBTUBT0123456789UBTUBT0123456789"

abbrev pool : Pool
pool = create 1 1 64 (replicate 64 no_task)

-- The folder's name, an id, a buffer and handles.
abbrev asr_handle : PersistentHandle
asr_handle = record { id = 2; type = asr; buf = 3; len = 2; completed = true }

abbrev start_handle : PersistentHandle
start_handle = record { id = 2; type = start; buf = 0; len = 0; completed = true }

abbrev stop_handle : PersistentHandle
stop_handle = record { id = 2; type = stop; buf = 0; len = 0; completed = false }

abbrev world : World
world = record {
  thread_pool = some pool;
  destroyed = false;
  pre_name = 1;
  persistent_count = 19;
  sd_id = device ++ (0 ∷ []);
  default_path = some (codes "/data/speech0");
  default_path_index = 0;
  blocks =
      text (codes "/d")
      ∷ text (codes "i")
      ∷ text (codes "{}")
      ∷ handle asr_handle
      ∷ handle start_handle
      ∷ handle stop_handle
      ∷ [];
  calls = [];
}

-- The write that fails leaves the name.
leak_runs :
    process_task full 4 world
    ≡ some (
      tt,
      record world {
        blocks =
            text (codes "/d")
            ∷ text (codes "i")
            ∷ released
            ∷ released
            ∷ handle start_handle
            ∷ handle stop_handle
            ∷ text (codes "/d/i/outputasr.json")
            ∷ [];
        calls = close 3 ∷ write 3 (codes "{}") ∷ Call.create (codes "/d/i/outputasr.json") ∷ [];
      },
    )
unfolding process_task
leak_runs = refl

-- `tm_mon` is printed as it is: 0 in January.
january :
    id_text (record { tm_year = 118; tm_mon = 0; tm_mday = 9; tm_hour = 7; tm_min = 5; tm_sec = 3 })
    ≡ codes "20180009070503"
unfolding id_text
january = refl

process_task-saves_example :
    process_task full 4 world
    ≡ some (
      tt,
      ended world 4 3
          (name_left full world asr_handle (codes "{}") (codes "/d/i/outputasr.json") (pos 3))
          (calls_made [] (codes "{}") (codes "/d/i/outputasr.json") (pos 3)),
    )
process_task-saves_example =
    process_task-saves full world 4 asr_handle (codes "/d") (codes "i") (codes "{}")
      (codes "outputasr.json")
      (record { at = refl; folder = refl; named = refl; buffer = refl; whole = refl }) refl
      (omega arith)

speech_process-asks_example :
    speech_process calm 2 (some (codes "abc")) (pos 2) nlp world
    ≡ some (
        after_adding world 2 nlp
          (codes "ab")
          (add_task pool (record { function = process_function; arg = 7 })))
speech_process-asks_example =
    speech_process-asks calm world 2 nlp (codes "abc") 2 pool (λ e. absurd (omega arith))
      (omega arith) (omega arith) (omega arith) refl refl refl refl

do_check_and_trigger_upload-counts_example :
    (calls : List Call) × (times 25 (do_check_and_trigger_upload calm) world
      ≡ some
          (tt, record world { persistent_count = (19 + 25) % max_persistent_count; calls = calls }))
    × (uploads calls ≡ 0 + (19 + 25) / max_persistent_count)
do_check_and_trigger_upload-counts_example =
    do_check_and_trigger_upload-counts calm 25 world (omega arith)

upload_task-breaks_example :
    (w' : World) × (upload_task calm (some (codes "/data/speech0")) world ≡ some (tt, w'))
    × (w'.default_path_index ≡ (0 + 1) % max_path_index)
    × (w'.default_path ≡ get_elem? default_local w'.default_path_index)
    × (process_task calm 4 w' ≡ none)
upload_task-breaks_example =
    upload_task-breaks calm world (codes "/data/speech0") 4 asr_handle (codes "outputasr.json")
      (inr (codes "/d", refl)) refl refl

abbrev noon : Tm
noon = record { tm_year = 118; tm_mon = 10; tm_mday = 26; tm_hour = 12; tm_min = 0; tm_sec = 1 }

noon-InRange : InRange noon
noon-InRange = record {
  year = omega arith;
  four = omega arith;
  mon = omega arith;
  mday = omega arith;
  hour = omega arith;
  min = omega arith;
  sec = omega arith;
}

noon_fits :
    (length (id_text noon) ≡ 14)
    × (get_id_by_time noon world
        ≡ some (7, record world { blocks = world.blocks ++ (text (id_text noon) ∷ []) }))
noon_fits = get_id_by_time-fits noon world noon-InRange

id_text-inj_example : noon ≡ noon
id_text-inj_example = id_text-inj noon noon noon-InRange noon-InRange refl

calm-Makes : Makes calm
calm-Makes calls p = inl refl

start_task-folders_example :
    start_task calm 5 world
    ≡ some (
      tt,
      started world 5
          (codes "/data/speech0")
          (codes "/data/speech0" </> (codes "flying-pig" </> device))
          (mkdir ((codes "/data/speech0" </> (codes "flying-pig" </> device)) </> codes "i")
            ∷ making calm (codes "/data/speech0" </> (codes "flying-pig" </> device)) (
                making calm
                  (codes "/data/speech0" </> codes "flying-pig")
                  (making calm (codes "/data/speech0") []))),
    )
unfolding c_string
start_task-folders_example =
    start_task-folders calm world 5 start_handle (codes "/data/speech0") device (codes "i")
      calm-Makes refl refl refl refl (omega arith) refl (omega arith)

stop_task-ends_example :
    stop_task calm 6 world ≡ some (tt, stopped calm world 6 stop_handle (codes "/d/i") false)
stop_task-ends_example =
    stop_task-ends calm world 6 stop_handle (codes "/d") (codes "i") refl refl refl refl
      (omega arith)
