-- ===== src/Persistent/Names.antt =====
-- The folders and names of demo/SpeechPersistentDemo/SpeechPersistent.c.
use program_learning.Prelude.{
  ℕ, zero, suc, ◌+◌, ◌-◌, ◌/◌, ◌%◌, Bool, true, Option, none, some, List, [], ◌∷◌, ◌++◌, ltb, ◌==◌,
  if◌then◌else◌, length, replicate,
}
use program_learning.Prelude.Text.{Text, codes}
use program_learning.Files.{slash}
use program_learning.Persistent.{
  access, mkdir, System, Run, ◌>>=◌, pure, given, modify, call, allocate, read_text, text, sprintf,
}

-- A directory or file in another.
infixr 66 ◌</>◌
abbrev pub ◌</>◌ : Text → Text → Text
p </> q = p ++ (slash ∷ q)

-- The text in an array, up to its first zero.
unfoldable pub c_string : List ℕ → Option Text
c_string [] = none
c_string (c ∷ cs) =
    if c == 0 then some [] else elim (c_string cs) [ none ↦ none | some s ↦ some (c ∷ s) ]

-- `EEXIST`
abbrev pub eexist : ℕ
eexist = 17

abbrev pub made_or_there : Option ℕ → Bool
made_or_there none = true
made_or_there (some errno) = errno == eexist

module _ (system : System) where
  -- `access`, then `mkdir` where nothing is there; `false` where that fails.
  unfoldable pub make_folder : Text → Run Bool
  make_folder path = do
    present ← call system (access path)
    if present then pure true else (do made ← call system (mkdir path); pure (made_or_there made))

  -- `initPath` from its third folder on.
  unfoldable pub init_pre_name : Text → Run (Unit {0})
  unfolding make_folder c_string
  init_pre_name base = do
    id ← (λ w. given (c_string w.sd_id) w)
    path ← sprintf 256 (base </> (codes "flying-pig" </> id))
    ok ← make_folder path
    if ok
        then (do name ← allocate (text path); modify (λ w. record w { pre_name = name }))
        else pure tt

  -- `initPath`
  unfoldable pub init_path : Run (Unit {0})
  unfolding make_folder init_pre_name
  init_path = do
    base ← (λ w. given w.default_path w)
    ok ← make_folder base
    if ok
        then (do
          path ← sprintf 256 (base </> codes "flying-pig")
          ok' ← make_folder path
          if ok' then init_pre_name base else pure tt)
        else pure tt

-- What `localtime` gives.
pub record Tm : Type 0 where
  pub tm_year : ℕ
  pub tm_mon : ℕ
  pub tm_mday : ℕ
  pub tm_hour : ℕ
  pub tm_min : ℕ
  pub tm_sec : ℕ

-- The decimal digits of a number below 10 ^ fuel.
unfoldable pub digits : ℕ → ℕ → Text
digits zero n = []
digits (suc fuel) n =
    let rest = digits fuel (n / 10) in
    if ltb n 10 then (48 + n) ∷ [] else rest ++ ((48 + n % 10) ∷ [])

-- `%0<width>d` of a number that is not negative.
unfoldable pub padded : ℕ → ℕ → Text
unfolding digits
padded width n = replicate (width - length (digits 20 n)) b'0' ++ digits 20 n

-- What `getIDbytime` prints.
unfoldable pub id_text : Tm → Text
unfolding padded
id_text t =
    padded 4 (t.tm_year + 1900)
    ++ (padded 2 t.tm_mon
        ++ (padded 2 t.tm_mday ++ (padded 2 t.tm_hour ++ (padded 2 t.tm_min ++ padded 2 t.tm_sec))))

-- `getIDbytime`
unfoldable pub get_id_by_time : Tm → Run ℕ
unfolding id_text
get_id_by_time now = do buffer ← sprintf 20 (id_text now); allocate (text buffer)

-- `getDirByID`
unfoldable pub get_dir_by_id : ℕ → Run ℕ
get_dir_by_id id = do
  pre ← (λ w. read_text w.pre_name w)
  name ← read_text id
  buffer ← sprintf 256 (pre </> name)
  allocate (text buffer)

-- What `getNameByID`, `getASRByID` and `getNLPByID` have in common.
unfoldable pub file_by_id : Text → ℕ → Run ℕ
file_by_id file id = do
  pre ← (λ w. read_text w.pre_name w)
  name ← read_text id
  buffer ← sprintf 256 (pre </> (name </> file))
  allocate (text buffer)

unfoldable pub get_name_by_id : ℕ → Run ℕ
unfolding file_by_id
get_name_by_id id = file_by_id (codes "input.pcm") id

unfoldable pub get_asr_by_id : ℕ → Run ℕ
unfolding file_by_id
get_asr_by_id id = file_by_id (codes "outputasr.json") id

unfoldable pub get_nlp_by_id : ℕ → Run ℕ
unfolding file_by_id
get_nlp_by_id id = file_by_id (codes "output.json") id
