-- ===== src/Persistent/Start.antt =====
-- The folders that `StartTask` of demo/SpeechPersistentDemo/SpeechPersistent.c makes.
use program_learning.Prelude.{
  ℕ, zero, suc, ◌+◌, ◌<◌, ◌≤◌, ◌≡◌, refl, ap, ◌∙◌, ◌⊎◌, inl, inr, Bool, true, false, some, List, [],
  ◌∷◌, ◌++◌, arith, length, length-append, lt→ltb, get_elem?, if◌then◌else◌, Bool-cases,
}
use program_learning.Prelude.Text.{Text, codes}
use program_learning.Persistent.{
  PersistentHandle, start, Block, text, handle, released, Call, access, mkdir, System, World, Run,
  ◌>>◌, ◌>>=◌, given, call, sprintf, block_at, put_block, free, read_text, read_handle, as_text,
  as_handle, default_local,
}
use program_learning.Persistent.Names.{
  ◌</>◌, c_string, made_or_there, make_folder, init_pre_name, init_path, get_dir_by_id,
}
use program_learning.Persistent.Tasks.{is_start, make_work_space, start_task}
use program_learning.Persistent.Heap.{
  free_lem, step, step_on, block_at-append, block_at-new, put_block-new,
}

abbrev pig : Text
pig = codes "flying-pig"

-- Each folder is there or can be made.
abbrev pub Makes : System → Type 0
Makes system =
    (calls : List Call) (p : Text)
    → (system calls (access p) ≡ true)
      ⊎ (made_or_there (system (access p ∷ calls) (mkdir p)) ≡ true)

local_length : (i : ℕ) {base : Text} → get_elem? default_local i ≡ some base → length base ≡ 13
local_length zero e = ground (arith, e)
local_length (suc zero) e = ground (arith, e)
local_length (suc (suc zero)) e = ground (arith, e)
local_length (suc (suc (suc zero))) e = ground (arith, e)
local_length (suc (suc (suc (suc i)))) e = cc

length-join : (p q : Text) → length (p </> q) ≡ length p + suc (length q)
length-join p q = length-append {0} p _

print : (n : ℕ) (t : Text) (w : World) → length t < n → sprintf n t w ≡ some (t, w)
print n t w h = rw (lt→ltb (length t) n h) refl

-- The calls that make a folder.
abbrev pub making : System → Text → List Call → List Call
making system p calls =
    if system calls (access p) then access p ∷ calls else mkdir p ∷ access p ∷ calls

module _ (system : System) (makes : Makes system) where
  made :
      (p : Text) (w : World)
      → make_folder system p w ≡ some (true, record w { calls = making system p w.calls })
  unfolding make_folder
  made p w = elim (Bool-cases (system w.calls (access p))) [
    | inl present ↦ rw present refl
    | inr missing ↦ rw missing (
        ap (λ b. some (b, record w { calls = mkdir p ∷ access p ∷ w.calls }))
          (ok (makes w.calls p) missing))
  ]
    where
      ok : {a b : Bool} → (a ≡ true) ⊎ (b ≡ true) → a ≡ false → b ≡ true
      ok (inl e) f = absurd (ground (arith, e, f))
      ok (inr e) f = e

  module _ (w : World) (base s : Text) (at : w.default_path ≡ some base)
      (named : c_string w.sd_id ≡ some s) (short : length base ≡ 13) (fits : length s ≤ 32) where
    abbrev pre : Text
    pre = base </> (pig </> s)

    length-pre : length pre ≤ 57
    length-pre = omega (arith, length-join base (pig </> s), length-join pig s)

    abbrev calls : List Call
    calls = making system pre (making system (base </> pig) (making system base w.calls))

    abbrev placed : World
    placed = record w {
      pre_name = suc (length w.blocks);
      blocks = w.blocks ++ (text pre ∷ []);
      calls = calls;
    }

    third :
        (cs : List Call)
        → init_pre_name system base (record w { calls = cs })
          ≡ some (
            tt,
            record w {
              pre_name = suc (length w.blocks);
              blocks = w.blocks ++ (text pre ∷ []);
              calls = making system pre cs;
            },
          )
    unfolding init_pre_name
    third cs =
        step (λ v. given (c_string v.sd_id) v) _ {w = record w { calls = cs }}
          (ap (λ o. given o (record w { calls = cs })) named)
        ∙ step (sprintf 256 pre) _ {w = record w { calls = cs }}
            (print 256 pre _ (omega (arith, length-pre)))
        ∙ step (make_folder system pre) _ {w = record w { calls = cs }}
            (made pre (record w { calls = cs }))

    all_made : init_path system w ≡ some (tt, placed)
    unfolding init_path
    all_made =
        step (λ v. given v.default_path v) _ {w = w} (ap (λ o. given o w) at)
        ∙ step (make_folder system base) _ {w = w} (made base w)
        ∙ step (sprintf 256 (base </> pig)) _ {w = record w { calls = making system base w.calls }}
            (print 256 (base </> pig) _ (omega (arith, length-join base pig)))
        ∙ step (make_folder system (base </> pig)) _
            {w = record w { calls = making system base w.calls }}
            (made (base </> pig) (record w { calls = making system base w.calls }))
        ∙ third (making system (base </> pig) (making system base w.calls))

-- The folder's name is the last block but one.
abbrev pub started : World → ℕ → Text → Text → List Call → World
started w a base pre calls = record w {
  default_path = some base;
  pre_name = suc (length w.blocks);
  blocks = put_block a released ((w.blocks ++ (text pre ∷ [])) ++ (released ∷ []));
  calls = calls;
}

module _ (system : System) (makes : Makes system) (w : World) (a : ℕ) (h : PersistentHandle)
    (base s id : Text) (here : block_at w.blocks a ≡ some (handle h))
    (chosen : get_elem? default_local w.default_path_index ≡ some base)
    (named : c_string w.sd_id ≡ some s) (fits : length s ≤ 32)
    (ident : block_at w.blocks h.id ≡ some (text id)) (small : length id ≤ 19) where
  abbrev base_of : Text
  base_of = base </> (pig </> s)

  abbrev before : World
  before = record w { default_path = some base }

  abbrev inside : World
  inside =
      placed system makes before base s refl named (local_length w.default_path_index chosen) fits

  abbrev named_world : Block → List Call → World
  named_world b cs = record inside { blocks = inside.blocks ++ (b ∷ []); calls = cs }

  dir_named :
      get_dir_by_id h.id inside
      ≡ some (suc (length inside.blocks), named_world (text (base_of </> id)) inside.calls)
  unfolding get_dir_by_id
  dir_named =
      step (λ v. read_text v.pre_name v) _ {w = inside}
        (ap (λ o. given (as_text o) inside) (block_at-new w.blocks (text base_of)))
      ∙ step (read_text h.id) _ {w = inside} (
          ap (λ o. given (as_text o) inside)
            (block_at-append w.blocks (text base_of ∷ []) h.id ident))
      ∙ step (sprintf 256 (base_of </> id)) _ {w = inside} (print 256 (base_of </> id) _ size)
    where
      size : length (base_of </> id) < 256
      size = omega (
        arith,
        small,
        length-join base_of id,
        length-pre system makes before base s refl named (local_length w.default_path_index chosen)
            fits,
      )

  abbrev last_calls : List Call
  last_calls = mkdir (base_of </> id) ∷ inside.calls

  worked : make_work_space system a h w ≡ some (tt, started w a base base_of last_calls)
  unfolding make_work_space
  worked =
      ap (λ d. (init_path system >>= λ u. rest) (record w { default_path = d })) chosen
      ∙ step_on (init_path system) rest {w = before} (
          all_made system makes before base s refl named (local_length w.default_path_index chosen)
            fits)
      ∙ step (get_dir_by_id h.id) _ {w = inside} dir_named
      ∙ step (read_text (suc (length inside.blocks))) _
          {w = named_world (text (base_of </> id)) inside.calls}
          (ap (λ o. given (as_text o) (named_world (text (base_of </> id)) inside.calls))
            (block_at-new inside.blocks (text (base_of </> id))))
      ∙ step_on (free (suc (length inside.blocks))) (free a)
          {w = named_world (text (base_of </> id)) last_calls}
          (free_lem (suc (length inside.blocks)) _
              (block_at-new inside.blocks (text (base_of </> id))) refl
            ∙ ap
                (λ b.
                  some (tt, record (named_world (text (base_of </> id)) last_calls) { blocks = b }))
                (put_block-new inside.blocks (text (base_of </> id)) released))
      ∙ free_lem a (named_world released last_calls)
          (block_at-append inside.blocks (released ∷ []) a
            (block_at-append w.blocks (text base_of ∷ []) a here))
          refl
    where
      rest : Run (Unit {0})
      rest = get_dir_by_id h.id >>= λ name.
          read_text name >>= λ path. call system (mkdir path) >>= λ m. free name >> free a

-- A start handle with its id of at most 19 characters, one of the four folders chosen, a device's id of
-- at most 32 characters, and a system that has or makes each folder: `StartTask` does not fault. It
-- makes the chosen folder, the one for the program and the one for the device, each where it is
-- missing, keeps the name of the last in a new block, makes the folder of the recording in it, and
-- releases its handle. The block of the old name, if there was one, is not released.
pub start_task-folders :
    (system : System) (w : World) (a : ℕ) (h : PersistentHandle) (base s id : Text)
    → Makes system
    → h.type ≡ start
    → block_at w.blocks a ≡ some (handle h)
    → get_elem? default_local w.default_path_index ≡ some base
    → c_string w.sd_id ≡ some s
    → length s ≤ 32
    → block_at w.blocks h.id ≡ some (text id)
    → length id ≤ 19
    → let pre = base </> (codes "flying-pig" </> s) in
      start_task system a w
      ≡ some (
        tt,
        started w a base pre (
            mkdir (pre </> id)
            ∷ making system pre
                (making system (base </> codes "flying-pig") (making system base w.calls))),
      )
unfolding start_task
start_task-folders system w zero h base s id makes is here chosen named fits ident small = cc here
start_task-folders system w (suc i) h base s id makes is here chosen named fits ident small =
    step (read_handle (suc i)) _ {w = w} (ap (λ o. given (as_handle o) w) here)
    ∙ ap (λ t. (if is_start t then make_work_space system (suc i) h else free (suc i)) w) is
    ∙ worked system makes w (suc i) h base s id here chosen named fits ident small
