-- ===== src/Server/Defaults.antt =====
-- Where the numbers of the server come from.
use kwd_server.Base.{ℕ, ◌≡◌, some, Word, codes, word_eq}
use kwd_server.Json.{JsonCpp}
use kwd_server.Server.{
  get_ip, get_number, get_port, get_que_size, get_thread_num, json_init, new_server,
}

module _ (json : JsonCpp) where
  open json use {
    Value, null, parse, member, with_member, is_null, as_int, as_string, IsBlank, null-IsBlank,
    with_member-IsBlank, member_of_blank, null_is_null, null_as_string, null_as_int,
  }

  get_ip_blank :
      (root : Value)
      → IsBlank root
      → get_ip json root ≡ some (codes "127.0.0.1", with_member (codes "SERVER_IPV4") root)
  unfolding get_ip word_eq
  get_ip_blank root blank = rw (member_of_blank (codes "SERVER_IPV4") root blank, null_as_string)

  get_number_blank :
      (key : Word) (otherwise : ℕ) (root : Value)
      → IsBlank root
      → get_number json key otherwise root ≡ some (otherwise, with_member key root)
  unfolding get_number
  get_number_blank key otherwise root blank = rw (member_of_blank key root blank, null_is_null)

  -- Whatever the file of the configuration holds, the server is made with the address 127.0.0.1, the
  -- port 6688, a queue of ten places and four threads, and only `root` has what the file says.
  pub new_server-defaults :
      (conf_path file : Word)
      → (root : Value) × (new_server json conf_path file
          ≡ some (record {
            conf_path = conf_path;
            root = json_init json file root;
            server_ip = codes "127.0.0.1";
            server_port = 6688;
            que_size = 10;
            thread_num = 4;
          }))
  unfolding new_server get_port get_que_size get_thread_num
  new_server-defaults conf_path file =
      let root1 = with_member (codes "SERVER_IPV4") null in
      let blank1 = with_member-IsBlank (codes "SERVER_IPV4") null null-IsBlank in
      let root2 = with_member (codes "SERVER_PORT") root1 in
      let blank2 = with_member-IsBlank (codes "SERVER_PORT") root1 blank1 in
      let root3 = with_member (codes "TASK_QUE_SIZE") root2 in
      let blank3 = with_member-IsBlank (codes "TASK_QUE_SIZE") root2 blank2 in
      (
        with_member (codes "SERVER_THREADS_NUM") root3,
        rw (
          get_ip_blank null null-IsBlank,
          get_number_blank (codes "SERVER_PORT") 6688 root1 blank1,
          get_number_blank (codes "TASK_QUE_SIZE") 10 root2 blank2,
          get_number_blank (codes "SERVER_THREADS_NUM") 4 root3 blank3,
        ),
      )
