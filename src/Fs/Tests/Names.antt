-- ===== src/Fs/Tests/Names.antt =====
-- The theorem on names at a concrete input.
use nano_s.Common.{◌-◌, ◌≡◌, ◌<◌, length, take, map}
use nano_s.Ulib.Text.{codes, cstr}
use nano_s.Fs.Types.{sfs_namesize}
use nano_s.Fs.Path.{string_to_name}
use nano_s.Fs.Path.Names.{IsName, kept, string_to_name-IsName}

string_to_name-IsName_example :
    let name = string_to_name (codes "what is it? a file") in
    (name ≡ map kept (take (sfs_namesize - 1) (cstr (codes "what is it? a file"))))
    × IsName name
    × (length name < sfs_namesize)
    × (string_to_name name ≡ name)
string_to_name-IsName_example = string_to_name-IsName (codes "what is it? a file")
