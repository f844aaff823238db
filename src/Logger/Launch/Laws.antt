-- ===== src/Logger/Launch/Laws.antt =====
-- Which options of hw2 count, and where the log of hw2 goes.
use nctu_unix_programming.Base.{
  ℕ, ◌≡◌, ◌≢◌, ◌<◌, refl, sym, ap, ◌∙◌, Bool, true, false, Option, some, List, [], ◌∷◌, arith,
}
use nctu_unix_programming.Base.Text.{Bytes, codes}
use nctu_unix_programming.Numbers.{ℤ, pos, negsuc}
use nctu_unix_programming.Logger.Launch.{
  Os, Opt, opt_file, opt_sopath, bad, Args, defaults, read_opts, Execvp, exec, opened, open_output,
  launch, main,
}

-- The arguments of the options -o, and of the options -p.
abbrev pub files : List Opt → List Bytes
files [] = []
files (opt_file t ∷ os) = t ∷ files os
files (opt_sopath t ∷ os) = files os
files (bad ∷ os) = files os

abbrev pub sopaths : List Opt → List Bytes
sopaths [] = []
sopaths (opt_file t ∷ os) = sopaths os
sopaths (opt_sopath t ∷ os) = t ∷ sopaths os
sopaths (bad ∷ os) = sopaths os

-- The last element, or a default.
abbrev pub last_or : Bytes → List Bytes → Bytes
last_or s [] = s
last_or s (t ∷ ts) = last_or t ts

abbrev pub all_good : List Opt → Bool
all_good [] = true
all_good (opt_file t ∷ os) = all_good os
all_good (opt_sopath t ∷ os) = all_good os
all_good (bad ∷ os) = false

read_opts-last_or :
    (a : Args) (os : List Opt)
    → all_good os ≡ true
    → read_opts a os
      ≡ some (record {
        arg_file = last_or a.arg_file (files os);
        arg_sopath = last_or a.arg_sopath (sopaths os);
      })
unfolding read_opts
read_opts-last_or a [] h = refl
read_opts-last_or a (opt_file t ∷ os) h = read_opts-last_or (record a { arg_file = t }) os h
read_opts-last_or a (opt_sopath t ∷ os) h = read_opts-last_or (record a { arg_sopath = t }) os h
read_opts-last_or a (bad ∷ os) h = let x : false ≡ true = h in cc

-- The open files of a process, and what it has printed by perror.
pub record IsOs (O : Os) : Type 1 where
  pub File : Type 0
  -- The path with which a file was opened.
  pub path : File → Bytes
  pub target : O.World → ℕ → Option File
  pub messages : O.World → List Bytes
  -- Descriptors are below this number.
  pub limit : ℕ
  pub dup2-target :
      (old new : ℕ) (f : File) (w : O.World)
      → target w old ≡ some f
      → new < limit
      → let w' = (O.dup2 old new w).1 in
        (target w' new ≡ some f)
        × (messages w' ≡ messages w)
        × ((k : ℕ) → k ≢ new → target w' k ≡ target w k)
  pub open_log-pos :
      (name : Bytes) (w : O.World) (n : ℕ)
      → let (r, w') = O.open_log name w in
        r ≡ pos n
        → (f : File) × (path f ≡ name)
          × (target w' n ≡ some f)
          × (messages w' ≡ messages w)
          × ((k : ℕ) → k ≢ n → target w' k ≡ target w k)
  pub open_log-negsuc :
      (name : Bytes) (w : O.World) (n : ℕ)
      → let (r, w') = O.open_log name w in
        r ≡ negsuc n → (messages w' ≡ messages w) × ((k : ℕ) → target w' k ≡ target w k)
  pub perror-messages :
      (s : Bytes) (w : O.World)
      → let w' = O.perror s w in
        (messages w' ≡ s ∷ messages w) × ((k : ℕ) → target w' k ≡ target w k)

module _ (O : Os) (A : IsOs O) where
  -- The descriptors differ at one number at most, and nothing was printed.
  abbrev pub SameBut : ℕ → O.World → O.World → Type 0
  SameBut n w w' = (A.messages w' ≡ A.messages w) × ((k : ℕ) → k ≢ n → A.target w' k ≡ A.target w k)

  -- The log in a file: OUTPUT_FD names a descriptor of the file of that path; or OUTPUT_FD is
  -- negative, of which stderr has a message, and no descriptor has changed.
  abbrev pub LogsToFile : Bytes → O.World → ℤ → O.World → Type 0
  LogsToFile name w (pos n) w' =
      ((f : A.File) × (A.path f ≡ name) × (A.target w' n ≡ some f)) × SameBut n w w'
  LogsToFile name w (negsuc n) w' =
      (A.messages w' ≡ codes "open" ∷ A.messages w) × ((k : ℕ) → A.target w' k ≡ A.target w k)

  -- Without a file OUTPUT_FD names a descriptor other than stderr that refers to the same file.
  abbrev pub LogsTo : Bytes → O.World → ℤ → O.World → Type 0
  LogsTo [] w fd w' =
      (n : ℕ) × (fd ≡ pos n) × (n ≢ 2) × (A.target w' n ≡ A.target w 2) × SameBut n w w'
  LogsTo (c ∷ f) w fd w' = LogsToFile (c ∷ f) w fd w'

  opened-LogsToFile :
      (name : Bytes) (w : O.World) (x : ℤ × O.World)
      → ((n : ℕ)
          → x.0 ≡ pos n
          → (f : A.File) × (A.path f ≡ name)
            × (A.target x.1 n ≡ some f)
            × (A.messages x.1 ≡ A.messages w)
            × ((k : ℕ) → k ≢ n → A.target x.1 k ≡ A.target w k))
      → ((n : ℕ)
          → x.0 ≡ negsuc n
          → (A.messages x.1 ≡ A.messages w) × ((k : ℕ) → A.target x.1 k ≡ A.target w k))
      → let (fd, w') = opened O x in LogsToFile name w fd w'
  unfolding opened
  opened-LogsToFile name w (pos n, w1) h k =
      let (f, named, target, quiet, kept) = h n refl in ((f, named, target), (quiet, kept))
  opened-LogsToFile name w (negsuc n, w1) h k =
      let (quiet, same) = k n refl in
      let (told, kept) = A.perror-messages (codes "open") w1 in
      (told ∙ ap (◌∷◌ (codes "open")) quiet, λ d. kept d ∙ same d)

  open_output-LogsTo :
      (name : Bytes) (w : O.World) (f : A.File)
      → A.target w 2 ≡ some f
      → 3 < A.limit
      → let (fd, w') = open_output O name w in LogsTo name w fd w'
  unfolding open_output
  open_output-LogsTo [] w f e l =
      let (target, quiet, kept) = A.dup2-target 2 3 f w e l in
      (3, refl, (λ h. absurd (omega (arith, h))), target ∙ sym e, (quiet, kept))
  open_output-LogsTo (c ∷ name) w f e l =
      opened-LogsToFile (c ∷ name) w (O.open_log (c ∷ name) w) (A.open_log-pos (c ∷ name) w)
        (A.open_log-negsuc (c ∷ name) w)

  -- Where no option is bad, a command is given and stderr is open, main executes the command with its
  -- arguments and the library of the last -p (./logger.so without one) preloaded. With no -o, or an
  -- empty last one, OUTPUT_FD names another descriptor of the file that stderr is; otherwise one of
  -- the file of the last -o, or, where that cannot be opened, it is negative, with a message. All
  -- other descriptors are as they were.
  pub main-exec :
      (w : O.World) (opts : List Opt) (cmd : Bytes) (args : List Bytes) (f : A.File)
      → all_good opts ≡ true
      → A.target w 2 ≡ some f
      → 3 < A.limit
      → (e : Execvp) × (w' : O.World) × (main O w opts (cmd ∷ args) ≡ exec e w')
        × (e.ld_preload ≡ last_or (codes "./logger.so") (sopaths opts))
        × (e.file ≡ cmd)
        × (e.argv ≡ cmd ∷ args)
        × LogsTo (last_or [] (files opts)) w e.output_fd w'
  unfolding main launch
  main-exec w opts cmd args f good e l = (
    record {
      output_fd = (open_output O (last_or [] (files opts)) w).0;
      ld_preload = last_or (codes "./logger.so") (sopaths opts);
      file = cmd;
      argv = cmd ∷ args;
    },
    (open_output O (last_or [] (files opts)) w).1,
    rw (main, read_opts-last_or defaults opts good) refl,
    refl,
    refl,
    refl,
    open_output-LogsTo (last_or [] (files opts)) w f e l,
  )
