-- ===== src/Examples/ServerPaths.antt =====
-- A Windows path, and one in the root of a drive.
use gosmo.Base.{◌≡◌, ◌++◌, refl, ◌∷◌, Bytes, codes, inr}
use gosmo.Paths.{
  backslash, is_separator, server_path_base, server_path_dir, join_server_path, is_root,
  server_path_separator, ends_in_separator,
}
use gosmo.Paths.Join.{join_server_path-server_path_dir}

abbrev data_dir : Bytes
data_dir = codes "C:\\data"

abbrev whole_path : Bytes
whole_path = data_dir ++ backslash ∷ codes "a.mdf"

join_server_path-server_path_dir_example :
    (server_path_base whole_path ≡ codes "a.mdf")
    × (join_server_path (server_path_dir whole_path) (server_path_base whole_path) ≡ whole_path)
unfolding is_separator is_root server_path_separator ends_in_separator
join_server_path-server_path_dir_example =
    join_server_path-server_path_dir data_dir (codes "a.mdf") backslash refl
      (refl, (refl, (refl, (refl, (refl, tt))))) (inr (refl, refl))

root_test : join_server_path (codes "C:\\") (codes "a.bak") ≡ codes "C:\\a.bak"
unfolding join_server_path
root_test = refl
