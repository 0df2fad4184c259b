-- ===== src/Settings/Table.antt =====
-- src/settings.c: the table of the options, by letter and by name, and the look-ups in it.
use impd4e.Common.{
  ℕ, List, [], ◌∷◌, Bool, true, false, ◌&&◌, ◌==◌, if◌then◌else◌, All, ◌≡◌, refl, Bool-cases, inl,
  inr,
}
use Prim.Native.Char.{code}
use Prim.Native.String.{String}
use impd4e.Range.{Text}

abbrev pub codes : String → Text
codes String.[] = []
codes (String.◌∷◌ c s) = code c ∷ codes s

-- The functions of the table, by the letters of their options.
pub data OptFunction : Type 0 where
  fct_v fct_V fct_h fct_i fct_4 fct_6 fct_O fct_f fct_N fct_I fct_J fct_K fct_G fct_m fct_M :
      OptFunction
  fct_r fct_s fct_S fct_F fct_p fct_o fct_u fct_C fct_P fct_e fct_t fct_d fct_D fct_l fct_L :
      OptFunction
  fct_c fct_n fct_X fct_y fct_unknown : OptFunction

pub record ConfigMap : Type 0 where
  pub opt_letter : ℕ
  pub opt_need_param : Text
  pub opt_fct : OptFunction
  pub cfg_item : Text

abbrev entry : ℕ → String → OptFunction → String → ConfigMap
entry letter need fct item = record {
  opt_letter = letter;
  opt_need_param = codes need;
  opt_fct = fct;
  cfg_item = codes item;
}

-- cfg_opt_list.
unfoldable pub cfg_opt_list : List ConfigMap
cfg_opt_list =
    entry b'v' "::" fct_v "general.verbosity"
    ∷ entry b'V' "" fct_V ""
    ∷ entry b'h' "" fct_h "general.help"
    ∷ entry b'i' ":" fct_i "capture.interface"
    ∷ entry b'4' "" fct_4 "capture.ipv4"
    ∷ entry b'6' "" fct_6 "capture.ipv6"
    ∷ entry b'O' ":" fct_O "capture.offset"
    ∷ entry b'f' ":" fct_f "filter.bpfilter"
    ∷ entry b'N' ":" fct_N "filter.snaplength"
    ∷ entry b'I' ":" fct_I "interval.data_export"
    ∷ entry b'J' ":" fct_J "interval.probe_stats"
    ∷ entry b'K' ":" fct_K "interval.interface_stats"
    ∷ entry b'G' ":" fct_G "interval.location"
    ∷ entry b'm' ":" fct_m "selection.min_hash_range"
    ∷ entry b'M' ":" fct_M "selection.max_hash_range"
    ∷ entry b'r' ":" fct_r "selection.hash_selection_ratio"
    ∷ entry b's' ":" fct_s "selection.selection_preset"
    ∷ entry b'S' ":" fct_S "selection.selection_parts"
    ∷ entry b'F' ":" fct_F "selection.hash_function"
    ∷ entry b'p' ":" fct_p "selection.pktid_function"
    ∷ entry b'o' ":" fct_o "ipfix.observation_domain_id"
    ∷ entry b'u' "" fct_u "ipfix.one_odid"
    ∷ entry b'C' ":" fct_C "ipfix.collector_ip_address"
    ∷ entry b'P' ":" fct_P "ipfix.collector_port"
    ∷ entry b'e' ":" fct_e "ipfix.export_flush_count"
    ∷ entry b't' ":" fct_t "template.used_template"
    ∷ entry b'd' ":" fct_d "geotags.probe_name"
    ∷ entry b'D' ":" fct_D "geotags.location_name"
    ∷ entry b'l' ":" fct_l "geotags.latitude"
    ∷ entry b'L' ":" fct_L "geotags.longitude"
    ∷ entry b'c' ":" fct_c "general.configfile"
    ∷ entry b'n' "" fct_n ""
    ∷ entry b'X' ":" fct_X ""
    ∷ entry b'y' "" fct_y ""
    ∷ []

-- strcmp, as a test for 0.
unfoldable pub same_text : Text → Text → Bool
same_text [] [] = true
same_text [] (d ∷ t) = false
same_text (c ∷ s) [] = false
same_text (c ∷ s) (d ∷ t) = (c == d) && same_text s t

-- The loops of the look-ups.
unfoldable pub function_char : ℕ → List ConfigMap → OptFunction
function_char c [] = fct_unknown
function_char c (m ∷ table) =
    let rest = function_char c table in if c == m.opt_letter then m.opt_fct else rest

unfoldable pub function_key : Text → List ConfigMap → OptFunction
function_key key [] = fct_unknown
function_key key (m ∷ table) =
    let rest = function_key key table in if same_text key m.cfg_item then m.opt_fct else rest

unfoldable pub letter_key : Text → List ConfigMap → ℕ
letter_key key [] = 0
letter_key key (m ∷ table) =
    let rest = letter_key key table in if same_text key m.cfg_item then m.opt_letter else rest

unfoldable pub find_opt_function_char : ℕ → OptFunction
find_opt_function_char c = function_char c cfg_opt_list

unfoldable pub find_opt_function_key : Text → OptFunction
find_opt_function_key key = function_key key cfg_opt_list

unfoldable pub find_opt_letter : Text → ℕ
find_opt_letter key = letter_key key cfg_opt_list

-- Every entry of `part` is the one that its letter leads to in `table`.
abbrev AllAgree : List ConfigMap → List ConfigMap → Type 0
AllAgree table part =
    All (λ m. function_char (ConfigMap.opt_letter m) table ≡ ConfigMap.opt_fct m) part

function_char-letter_key :
    (key : Text) (table part : List ConfigMap)
    → function_char 0 table ≡ fct_unknown
    → AllAgree table part
    → function_char (letter_key key part) table ≡ function_key key part
unfolding letter_key function_key
function_char-letter_key key table [] unknown h = unknown
function_char-letter_key key table (m ∷ part) unknown (here, h) =
    elim (Bool-cases (same_text key m.cfg_item)) [
      | inl same ↦ rw same here
      | inr other ↦ rw other (function_char-letter_key key table part unknown h)
    ]

cfg_opt_list-AllAgree : AllAgree cfg_opt_list cfg_opt_list
unfolding cfg_opt_list function_char
cfg_opt_list-AllAgree = (
  refl,
  (
    refl,
    (
      refl,
      (
        refl,
        (
          refl,
          (
            refl,
            (
              refl,
              (
                refl,
                (
                  refl,
                  (
                    refl,
                    (
                      refl,
                      (
                        refl,
                        (
                          refl,
                          (
                            refl,
                            (
                              refl,
                              (
                                refl,
                                (
                                  refl,
                                  (
                                    refl,
                                    (
                                      refl,
                                      (
                                        refl,
                                        (
                                          refl,
                                          (
                                            refl,
                                            (
                                              refl,
                                              (
                                                refl,
                                                (
                                                  refl,
                                                  (
                                                    refl,
                                                    (
                                                      refl,
                                                      (
                                                        refl,
                                                        (
                                                          refl,
                                                          (
                                                            refl,
                                                            (refl, (refl, (refl, (refl, tt)))),
                                                          ),
                                                        ),
                                                      ),
                                                    ),
                                                  ),
                                                ),
                                              ),
                                            ),
                                          ),
                                        ),
                                      ),
                                    ),
                                  ),
                                ),
                              ),
                            ),
                          ),
                        ),
                      ),
                    ),
                  ),
                ),
              ),
            ),
          ),
        ),
      ),
    ),
  ),
)

unknown : function_char 0 cfg_opt_list ≡ fct_unknown
unfolding cfg_opt_list function_char
unknown = refl

-- A name in the configuration file and the letter that find_opt_letter gives for it lead to the same
-- function, for every text: no letter stands twice in the table, and a name that is not in the
-- table leads to the function for unknown options both ways.
pub find_opt_function_char-find_opt_letter :
    (key : Text) → find_opt_function_char (find_opt_letter key) ≡ find_opt_function_key key
unfolding find_opt_function_char find_opt_letter find_opt_function_key
find_opt_function_char-find_opt_letter key =
    function_char-letter_key key cfg_opt_list cfg_opt_list unknown cfg_opt_list-AllAgree

unfoldable pub is_unknown : OptFunction → Bool
is_unknown fct_unknown = true
is_unknown _ = false

abbrev IsEntry : ConfigMap → Type 0
IsEntry m = (is_unknown m.opt_fct ≡ false) × ((m.opt_letter == 0) ≡ false)

letter_key-unknown :
    (key : Text) (table : List ConfigMap)
    → All IsEntry table
    → is_unknown (function_key key table) ≡ (letter_key key table == 0)
unfolding function_key letter_key is_unknown
letter_key-unknown key [] h = refl
letter_key-unknown key (m ∷ table) ((known, lettered), h) =
    elim (Bool-cases (same_text key m.cfg_item)) [
      | inl same ↦ rw same (rw known (rw lettered refl))
      | inr other ↦ rw other (letter_key-unknown key table h)
    ]

cfg_opt_list-IsEntry : All IsEntry cfg_opt_list
unfolding cfg_opt_list is_unknown
cfg_opt_list-IsEntry = (
  (refl, refl),
  (
    (refl, refl),
    (
      (refl, refl),
      (
        (refl, refl),
        (
          (refl, refl),
          (
            (refl, refl),
            (
              (refl, refl),
              (
                (refl, refl),
                (
                  (refl, refl),
                  (
                    (refl, refl),
                    (
                      (refl, refl),
                      (
                        (refl, refl),
                        (
                          (refl, refl),
                          (
                            (refl, refl),
                            (
                              (refl, refl),
                              (
                                (refl, refl),
                                (
                                  (refl, refl),
                                  (
                                    (refl, refl),
                                    (
                                      (refl, refl),
                                      (
                                        (refl, refl),
                                        (
                                          (refl, refl),
                                          (
                                            (refl, refl),
                                            (
                                              (refl, refl),
                                              (
                                                (refl, refl),
                                                (
                                                  (refl, refl),
                                                  (
                                                    (refl, refl),
                                                    (
                                                      (refl, refl),
                                                      (
                                                        (refl, refl),
                                                        (
                                                          (refl, refl),
                                                          (
                                                            (refl, refl),
                                                            (
                                                            (refl, refl),
                                                            (
                                                            (refl, refl),
                                                            ((refl, refl), ((refl, refl), tt)),
                                                            ),
                                                            ),
                                                          ),
                                                        ),
                                                      ),
                                                    ),
                                                  ),
                                                ),
                                              ),
                                            ),
                                          ),
                                        ),
                                      ),
                                    ),
                                  ),
                                ),
                              ),
                            ),
                          ),
                        ),
                      ),
                    ),
                  ),
                ),
              ),
            ),
          ),
        ),
      ),
    ),
  ),
)

-- A name has no letter exactly where it leads to the function for unknown options.
pub is_unknown-find_opt_letter :
    (key : Text) → is_unknown (find_opt_function_key key) ≡ (find_opt_letter key == 0)
unfolding find_opt_letter find_opt_function_key
is_unknown-find_opt_letter key = letter_key-unknown key cfg_opt_list cfg_opt_list-IsEntry
