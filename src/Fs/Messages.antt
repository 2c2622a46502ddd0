-- ===== src/Fs/Messages.antt =====
-- The texts of the replies of fs/src/handle.c and fs/src/server.c, each byte by byte.
use cs2310_prj.Base.{ℕ, List, [], ◌∷◌}

-- "Permission denied"
abbrev pub permission_denied : List ℕ
permission_denied =
    80 ∷ 101 ∷ 114 ∷ 109 ∷ 105 ∷ 115 ∷ 115 ∷ 105 ∷ 111 ∷ 110 ∷ 32 ∷ 100 ∷ 101 ∷ 110 ∷ 105 ∷ 101
    ∷ 100 ∷ []

-- "Failed to format"
abbrev pub failed_to_format : List ℕ
failed_to_format =
    70 ∷ 97 ∷ 105 ∷ 108 ∷ 101 ∷ 100 ∷ 32 ∷ 116 ∷ 111 ∷ 32 ∷ 102 ∷ 111 ∷ 114 ∷ 109 ∷ 97 ∷ 116 ∷ []

-- "Failed to create file"
abbrev pub failed_to_create_file : List ℕ
failed_to_create_file =
    70 ∷ 97 ∷ 105 ∷ 108 ∷ 101 ∷ 100 ∷ 32 ∷ 116 ∷ 111 ∷ 32 ∷ 99 ∷ 114 ∷ 101 ∷ 97 ∷ 116 ∷ 101 ∷ 32
    ∷ 102 ∷ 105 ∷ 108 ∷ 101 ∷ []

-- "Failed to create dir"
abbrev pub failed_to_create_dir : List ℕ
failed_to_create_dir =
    70 ∷ 97 ∷ 105 ∷ 108 ∷ 101 ∷ 100 ∷ 32 ∷ 116 ∷ 111 ∷ 32 ∷ 99 ∷ 114 ∷ 101 ∷ 97 ∷ 116 ∷ 101 ∷ 32
    ∷ 100 ∷ 105 ∷ 114 ∷ []

-- "File not found"
abbrev pub file_not_found : List ℕ
file_not_found = 70 ∷ 105 ∷ 108 ∷ 101 ∷ 32 ∷ 110 ∷ 111 ∷ 116 ∷ 32 ∷ 102 ∷ 111 ∷ 117 ∷ 110 ∷ 100 ∷ []

-- "Failed to remove file"
abbrev pub failed_to_remove_file : List ℕ
failed_to_remove_file =
    70 ∷ 97 ∷ 105 ∷ 108 ∷ 101 ∷ 100 ∷ 32 ∷ 116 ∷ 111 ∷ 32 ∷ 114 ∷ 101 ∷ 109 ∷ 111 ∷ 118 ∷ 101 ∷ 32
    ∷ 102 ∷ 105 ∷ 108 ∷ 101 ∷ []

-- "Dir not found"
abbrev pub dir_not_found : List ℕ
dir_not_found = 68 ∷ 105 ∷ 114 ∷ 32 ∷ 110 ∷ 111 ∷ 116 ∷ 32 ∷ 102 ∷ 111 ∷ 117 ∷ 110 ∷ 100 ∷ []

-- "Failed to remove dir"
abbrev pub failed_to_remove_dir : List ℕ
failed_to_remove_dir =
    70 ∷ 97 ∷ 105 ∷ 108 ∷ 101 ∷ 100 ∷ 32 ∷ 116 ∷ 111 ∷ 32 ∷ 114 ∷ 101 ∷ 109 ∷ 111 ∷ 118 ∷ 101 ∷ 32
    ∷ 100 ∷ 105 ∷ 114 ∷ []

-- "Failed to change dir"
abbrev pub failed_to_change_dir : List ℕ
failed_to_change_dir =
    70 ∷ 97 ∷ 105 ∷ 108 ∷ 101 ∷ 100 ∷ 32 ∷ 116 ∷ 111 ∷ 32 ∷ 99 ∷ 104 ∷ 97 ∷ 110 ∷ 103 ∷ 101 ∷ 32
    ∷ 100 ∷ 105 ∷ 114 ∷ []

-- "Failed to list files"
abbrev pub failed_to_list_files : List ℕ
failed_to_list_files =
    70 ∷ 97 ∷ 105 ∷ 108 ∷ 101 ∷ 100 ∷ 32 ∷ 116 ∷ 111 ∷ 32 ∷ 108 ∷ 105 ∷ 115 ∷ 116 ∷ 32 ∷ 102 ∷ 105
    ∷ 108 ∷ 101 ∷ 115 ∷ []

-- "Failed to read file"
abbrev pub failed_to_read_file : List ℕ
failed_to_read_file =
    70 ∷ 97 ∷ 105 ∷ 108 ∷ 101 ∷ 100 ∷ 32 ∷ 116 ∷ 111 ∷ 32 ∷ 114 ∷ 101 ∷ 97 ∷ 100 ∷ 32 ∷ 102 ∷ 105
    ∷ 108 ∷ 101 ∷ []

-- "Failed to write file"
abbrev pub failed_to_write_file : List ℕ
failed_to_write_file =
    70 ∷ 97 ∷ 105 ∷ 108 ∷ 101 ∷ 100 ∷ 32 ∷ 116 ∷ 111 ∷ 32 ∷ 119 ∷ 114 ∷ 105 ∷ 116 ∷ 101 ∷ 32 ∷ 102
    ∷ 105 ∷ 108 ∷ 101 ∷ []

-- "Failed to insert"
abbrev pub failed_to_insert : List ℕ
failed_to_insert =
    70 ∷ 97 ∷ 105 ∷ 108 ∷ 101 ∷ 100 ∷ 32 ∷ 116 ∷ 111 ∷ 32 ∷ 105 ∷ 110 ∷ 115 ∷ 101 ∷ 114 ∷ 116 ∷ []

-- "Failed to delete"
abbrev pub failed_to_delete : List ℕ
failed_to_delete =
    70 ∷ 97 ∷ 105 ∷ 108 ∷ 101 ∷ 100 ∷ 32 ∷ 116 ∷ 111 ∷ 32 ∷ 100 ∷ 101 ∷ 108 ∷ 101 ∷ 116 ∷ 101 ∷ []

-- "Bye!\r\n"
abbrev pub bye : List ℕ
bye = 66 ∷ 121 ∷ 101 ∷ 33 ∷ 13 ∷ 10 ∷ []

-- "Usage: useradd <uid>"
abbrev pub usage_useradd : List ℕ
usage_useradd =
    85 ∷ 115 ∷ 97 ∷ 103 ∷ 101 ∷ 58 ∷ 32 ∷ 117 ∷ 115 ∷ 101 ∷ 114 ∷ 97 ∷ 100 ∷ 100 ∷ 32 ∷ 60 ∷ 117
    ∷ 105 ∷ 100 ∷ 62 ∷ []

-- "User already exists"
abbrev pub user_already_exists : List ℕ
user_already_exists =
    85 ∷ 115 ∷ 101 ∷ 114 ∷ 32 ∷ 97 ∷ 108 ∷ 114 ∷ 101 ∷ 97 ∷ 100 ∷ 121 ∷ 32 ∷ 101 ∷ 120 ∷ 105 ∷ 115
    ∷ 116 ∷ 115 ∷ []

-- "Invalid user ID"
abbrev pub invalid_user_id : List ℕ
invalid_user_id =
    73 ∷ 110 ∷ 118 ∷ 97 ∷ 108 ∷ 105 ∷ 100 ∷ 32 ∷ 117 ∷ 115 ∷ 101 ∷ 114 ∷ 32 ∷ 73 ∷ 68 ∷ []

-- "Failed to add user"
abbrev pub failed_to_add_user : List ℕ
failed_to_add_user =
    70 ∷ 97 ∷ 105 ∷ 108 ∷ 101 ∷ 100 ∷ 32 ∷ 116 ∷ 111 ∷ 32 ∷ 97 ∷ 100 ∷ 100 ∷ 32 ∷ 117 ∷ 115 ∷ 101
    ∷ 114 ∷ []

-- "Usage: userdel <uid>"
abbrev pub usage_userdel : List ℕ
usage_userdel =
    85 ∷ 115 ∷ 97 ∷ 103 ∷ 101 ∷ 58 ∷ 32 ∷ 117 ∷ 115 ∷ 101 ∷ 114 ∷ 100 ∷ 101 ∷ 108 ∷ 32 ∷ 60 ∷ 117
    ∷ 105 ∷ 100 ∷ 62 ∷ []

-- "Delete failed, may be not empty"
abbrev pub delete_failed : List ℕ
delete_failed =
    68 ∷ 101 ∷ 108 ∷ 101 ∷ 116 ∷ 101 ∷ 32 ∷ 102 ∷ 97 ∷ 105 ∷ 108 ∷ 101 ∷ 100 ∷ 44 ∷ 32 ∷ 109 ∷ 97
    ∷ 121 ∷ 32 ∷ 98 ∷ 101 ∷ 32 ∷ 110 ∷ 111 ∷ 116 ∷ 32 ∷ 101 ∷ 109 ∷ 112 ∷ 116 ∷ 121 ∷ []

-- "User not found"
abbrev pub user_not_found : List ℕ
user_not_found = 85 ∷ 115 ∷ 101 ∷ 114 ∷ 32 ∷ 110 ∷ 111 ∷ 116 ∷ 32 ∷ 102 ∷ 111 ∷ 117 ∷ 110 ∷ 100 ∷ []

-- "Usage: login <uid>"
abbrev pub usage_login : List ℕ
usage_login =
    85 ∷ 115 ∷ 97 ∷ 103 ∷ 101 ∷ 58 ∷ 32 ∷ 108 ∷ 111 ∷ 103 ∷ 105 ∷ 110 ∷ 32 ∷ 60 ∷ 117 ∷ 105 ∷ 100
    ∷ 62 ∷ []

-- "Login failed"
abbrev pub login_failed : List ℕ
login_failed = 76 ∷ 111 ∷ 103 ∷ 105 ∷ 110 ∷ 32 ∷ 102 ∷ 97 ∷ 105 ∷ 108 ∷ 101 ∷ 100 ∷ []

-- "Unknown error"
abbrev pub unknown_error : List ℕ
unknown_error = 85 ∷ 110 ∷ 107 ∷ 110 ∷ 111 ∷ 119 ∷ 110 ∷ 32 ∷ 101 ∷ 114 ∷ 114 ∷ 111 ∷ 114 ∷ []

-- "Error: filesystem not formatted. Please `login 1` then `f`."
abbrev pub not_formatted : List ℕ
not_formatted =
    69 ∷ 114 ∷ 114 ∷ 111 ∷ 114 ∷ 58 ∷ 32 ∷ 102 ∷ 105 ∷ 108 ∷ 101 ∷ 115 ∷ 121 ∷ 115 ∷ 116 ∷ 101 ∷ 109
    ∷ 32 ∷ 110 ∷ 111 ∷ 116 ∷ 32 ∷ 102 ∷ 111 ∷ 114 ∷ 109 ∷ 97 ∷ 116 ∷ 116 ∷ 101 ∷ 100 ∷ 46 ∷ 32 ∷ 80
    ∷ 108 ∷ 101 ∷ 97 ∷ 115 ∷ 101 ∷ 32 ∷ 96 ∷ 108 ∷ 111 ∷ 103 ∷ 105 ∷ 110 ∷ 32 ∷ 49 ∷ 96 ∷ 32 ∷ 116
    ∷ 104 ∷ 101 ∷ 110 ∷ 32 ∷ 96 ∷ 102 ∷ 96 ∷ 46 ∷ []

-- "Error: only root (UID=1) can login before format."
abbrev pub only_root_login : List ℕ
only_root_login =
    69 ∷ 114 ∷ 114 ∷ 111 ∷ 114 ∷ 58 ∷ 32 ∷ 111 ∷ 110 ∷ 108 ∷ 121 ∷ 32 ∷ 114 ∷ 111 ∷ 111 ∷ 116 ∷ 32
    ∷ 40 ∷ 85 ∷ 73 ∷ 68 ∷ 61 ∷ 49 ∷ 41 ∷ 32 ∷ 99 ∷ 97 ∷ 110 ∷ 32 ∷ 108 ∷ 111 ∷ 103 ∷ 105 ∷ 110 ∷ 32
    ∷ 98 ∷ 101 ∷ 102 ∷ 111 ∷ 114 ∷ 101 ∷ 32 ∷ 102 ∷ 111 ∷ 114 ∷ 109 ∷ 97 ∷ 116 ∷ 46 ∷ []

-- "Error: only root can format."
abbrev pub only_root_format : List ℕ
only_root_format =
    69 ∷ 114 ∷ 114 ∷ 111 ∷ 114 ∷ 58 ∷ 32 ∷ 111 ∷ 110 ∷ 108 ∷ 121 ∷ 32 ∷ 114 ∷ 111 ∷ 111 ∷ 116 ∷ 32
    ∷ 99 ∷ 97 ∷ 110 ∷ 32 ∷ 102 ∷ 111 ∷ 114 ∷ 109 ∷ 97 ∷ 116 ∷ 46 ∷ []

-- "Error: please `login <uid>` first."
abbrev pub login_first : List ℕ
login_first =
    69 ∷ 114 ∷ 114 ∷ 111 ∷ 114 ∷ 58 ∷ 32 ∷ 112 ∷ 108 ∷ 101 ∷ 97 ∷ 115 ∷ 101 ∷ 32 ∷ 96 ∷ 108 ∷ 111
    ∷ 103 ∷ 105 ∷ 110 ∷ 32 ∷ 60 ∷ 117 ∷ 105 ∷ 100 ∷ 62 ∷ 96 ∷ 32 ∷ 102 ∷ 105 ∷ 114 ∷ 115 ∷ 116 ∷ 46
    ∷ []

-- "Error: only root can add/delete users."
abbrev pub only_root_users : List ℕ
only_root_users =
    69 ∷ 114 ∷ 114 ∷ 111 ∷ 114 ∷ 58 ∷ 32 ∷ 111 ∷ 110 ∷ 108 ∷ 121 ∷ 32 ∷ 114 ∷ 111 ∷ 111 ∷ 116 ∷ 32
    ∷ 99 ∷ 97 ∷ 110 ∷ 32 ∷ 97 ∷ 100 ∷ 100 ∷ 47 ∷ 100 ∷ 101 ∷ 108 ∷ 101 ∷ 116 ∷ 101 ∷ 32 ∷ 117 ∷ 115
    ∷ 101 ∷ 114 ∷ 115 ∷ 46 ∷ []

-- "Unknown command"
abbrev pub unknown_command : List ℕ
unknown_command =
    85 ∷ 110 ∷ 107 ∷ 110 ∷ 111 ∷ 119 ∷ 110 ∷ 32 ∷ 99 ∷ 111 ∷ 109 ∷ 109 ∷ 97 ∷ 110 ∷ 100 ∷ []
