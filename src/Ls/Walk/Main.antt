-- ===== src/Ls/Walk/Main.antt =====
-- The end of `ls_main` of src/ls.c: which directories it opens.
use rmm.Base.{ℕ, Bool, true, false, List, []}
use rmm.Ls.{split_dir}
use rmm.Ls.Print.{Full}
use rmm.Ls.Walk.{Lister, stat_args, args}
use rmm.Ls.Walk.Reach.{Same, Opens}
use rmm.Ls.Walk.Sorted.{part_of}

-- The directories that are entered of some arguments: none with `DISP_NOLIST`.
abbrev pub dirs_by : Lister → (nolist : Bool) → List Full → List Full
dirs_by lister true dnp = []
dirs_by lister false dnp = part_of lister split_dir dnp

-- Those among the arguments that the system knows.
unfoldable pub given_dirs : Lister → (av : List (List ℕ)) → List Full
unfolding stat_args
given_dirs lister av =
    dirs_by lister lister.options.disp_nolist (stat_args lister (args av) [] false).0

-- The directories, in some order, are opened one after the other.
abbrev pub InOrder : Lister → (dirs : List Full) → (log : List (List ℕ)) → Type 0
InOrder lister dirs log = (order : List Full) × Same order dirs × Opens lister order log
