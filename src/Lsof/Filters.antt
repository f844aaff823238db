-- ===== src/Lsof/Filters.antt =====
-- search_comm, search_type, search_file and print_all of hw1/hw1.cpp, and main.
pub mod Laws
use nctu_unix_programming.Base.{
  ℕ, zero, suc, Bool, true, false, Option, none, some, List, [], ◌∷◌, ◌++◌, map, if◌then◌else◌,
  length, keep_if, get_elem?, erase_at,
}
use nctu_unix_programming.Base.Text.{Bytes, codes}
use nctu_unix_programming.Lsof.Text.{is_empty, digit_filter}
use nctu_unix_programming.Lsof.Proc.{Proc}
use nctu_unix_programming.Lsof.Entries.{
  FileDescriptor, PidInfo, get_comm, get_uid, get_username, get_cwd, get_root, get_exe, get_mem,
  get_fd,
}

infixl 5 ◌>>=◌
abbrev pub ◌>>=◌ : {A B : Type 0} → Option A → (A → Option B) → Option B
none >>= f = none
some a >>= f = f a

-- `for (i = 0; i < v.size();) if (!keep(v[i])) v.erase(v.begin() + i); else i++;`
unfoldable pub erase_loop {ℓ} : {A : Type ℓ} → ℕ → (A → Bool) → ℕ → List A → List A
erase_loop zero keep i v = v
erase_loop (suc fuel) keep i v = elim (get_elem? v i) [
  | none ↦ v
  | some x ↦
      let skipped = erase_loop fuel keep (suc i) v in
      let erased = erase_loop fuel keep i (erase_at i v) in if keep x then skipped else erased
]

-- As many rounds as there are elements, and one for the last test.
abbrev pub erase_unless {ℓ} : {A : Type ℓ} → (A → Bool) → List A → List A
erase_unless keep v = erase_loop (suc (length v)) keep 0 v

-- The vector, or `none` if the pattern is no regular expression.
unfoldable pub search_comm : Proc → Bytes → List PidInfo → Option (List PidInfo)
unfolding erase_loop
search_comm P comm lsof = if is_empty comm then some lsof else elim (P.regex_search comm) [
  | none ↦ none
  | some matches ↦ some (erase_unless (λ (p : PidInfo). matches p.comm) lsof)
]

abbrev with_files : (FileDescriptor → Bool) → PidInfo → PidInfo
with_files keep p = record p { file_desc = erase_unless keep p.file_desc }

unfoldable pub search_type : Proc → Bytes → List PidInfo → Option (List PidInfo)
unfolding erase_loop
search_type P type lsof = if is_empty type then some lsof else elim (P.regex_search type) [
  | none ↦ none
  | some matches ↦ some (map (with_files (λ (f : FileDescriptor). matches f.type)) lsof)
]

unfoldable pub search_file : Proc → Bytes → List PidInfo → Option (List PidInfo)
unfolding erase_loop
search_file P file lsof = if is_empty file then some lsof else elim (P.regex_search file) [
  | none ↦ none
  | some matches ↦ some (map (with_files (λ (f : FileDescriptor). matches f.name)) lsof)
]

-- One line of print_all.
pub record Row : Type 0 where
  pub comm : Bytes
  pub pid : Bytes
  pub username : Bytes
  pub fd : Bytes
  pub type : Bytes
  pub node : Bytes
  pub name : Bytes

abbrev pub row_of : PidInfo → FileDescriptor → Row
row_of p f = record {
  comm = p.comm;
  pid = p.pid;
  username = p.username;
  fd = f.fd;
  type = f.type;
  node = f.node;
  name = f.name;
}

unfoldable pub print_all : List PidInfo → List Row
print_all [] = []
print_all (p ∷ ps) = map (row_of p) p.file_desc ++ print_all ps

-- The part of main that fills in one process.
unfoldable pub pid_info : Proc → Bytes → Option PidInfo
pid_info P pid = do
  username ← get_username P (get_uid P pid)
  cwd ← get_cwd P pid
  root ← get_root P pid
  exe ← get_exe P pid
  fds ← get_fd P pid
  some (record {
    pid = pid;
    uid = get_uid P pid;
    username = username;
    comm = get_comm P pid;
    file_desc = cwd ∷ root ∷ exe ∷ (get_mem P pid ++ fds);
  })

unfoldable pub pid_infos : Proc → List Bytes → Option (List PidInfo)
unfolding pid_info
pid_infos P [] = some []
pid_infos P (pid ∷ pids) = do p ← pid_info P pid; ps ← pid_infos P pids; some (p ∷ ps)

-- What getopt gives for "c:t:f:"; `other` is any result that main has no case for.
pub data Opt : Type 0 where
  opt_comm opt_type opt_file : Bytes → Opt
  other : Opt

pub record Args : Type 0 where
  pub arg_comm : Bytes
  pub arg_type : Bytes
  pub arg_file : Bytes

-- An option that getopt refuses is passed over; the line `input error!` on stdout is left out.
unfoldable pub read_opts : Args → List Opt → Args
read_opts a [] = a
read_opts a (opt_comm s ∷ os) = read_opts (record a { arg_comm = s }) os
read_opts a (opt_type s ∷ os) = read_opts (record a { arg_type = s }) os
read_opts a (opt_file s ∷ os) = read_opts (record a { arg_file = s }) os
read_opts a (other ∷ os) = read_opts a os

-- After its loop over the options `cmd_opt` is -1, so main always filters.
unfoldable pub filtered : Proc → Args → List PidInfo → Option (List PidInfo)
unfolding search_comm search_type search_file
filtered P a lsof = do
  by_comm ← search_comm P a.arg_comm lsof
  by_type ← search_type P a.arg_type by_comm
  search_file P a.arg_file by_type

-- The rows that main prints below its header, from the sorted entries of /proc.
unfoldable pub main : Proc → List Bytes → List Opt → Option (List Row)
unfolding pid_infos filtered read_opts print_all digit_filter
main P entries opts = do
  lsof ← pid_infos P (keep_if digit_filter entries)
  kept ← filtered P (read_opts (record { arg_comm = []; arg_type = []; arg_file = [] }) opts) lsof
  some (print_all kept)
