-- ===== src/Packet/Files.antt =====
-- The requests of get_packet for the files on the flash.
use not.Comms.{comms_send_string}
use not.Fs.{
  flashfs_remove, flashfs_move, flashfs_file_open, flashfs_file_close, flashfs_file_read,
  flashfs_file_write, flashfs_file_seek, flashfs_file_truncate, flashfs_mkdir, flashfs_dir_open,
  flashfs_dir_close, flashfs_dir_read,
}
use not.Packet.{
  half, look, Chip, Handler, ◌>>=◌, ◌>>◌, on_fs, try_fs, to_link, recv_u32, send_u32, send_bytes,
  recv_into, recv_string, string_at, put_mega, get_mega,
}

module _ {S L F D I : Type 0} (c : Chip S L F D I) where
  unfoldable pub recv_flashfs_remove : Handler S L F D I
  recv_flashfs_remove = do
    recv_string c 0
    path ← string_at c 0
    return_code ← on_fs c (flashfs_remove c.littlefs path)
    send_u32 c return_code

  unfoldable pub recv_flashfs_move : Handler S L F D I
  recv_flashfs_move = do
    recv_string c 0
    recv_string c half
    from ← string_at c 0
    to ← string_at c half
    return_code ← on_fs c (flashfs_move c.littlefs from to)
    send_u32 c return_code

  unfoldable pub recv_flashfs_file_open : Handler S L F D I
  recv_flashfs_file_open = do
    recv_string c 0
    flags ← recv_u32 c
    path ← string_at c 0
    fh ← try_fs c (flashfs_file_open c.littlefs path flags)
    send_u32 c fh

  unfoldable pub recv_flashfs_file_close : Handler S L F D I
  recv_flashfs_file_close = do
    fh ← recv_u32 c
    return_code ← try_fs c (flashfs_file_close c.littlefs fh)
    send_u32 c return_code

  unfoldable pub recv_flashfs_file_read : Handler S L F D I
  recv_flashfs_file_read = do
    fh ← recv_u32 c
    len ← recv_u32 c
    (return_code, bytes) ← try_fs c (flashfs_file_read c.littlefs fh len)
    put_mega c 0 bytes
    send_u32 c return_code
    read_buffer ← get_mega c 0 len
    send_bytes c read_buffer

  unfoldable pub recv_flashfs_file_write : Handler S L F D I
  recv_flashfs_file_write = do
    fh ← recv_u32 c
    len ← recv_u32 c
    recv_into c 0 len
    write_buffer ← get_mega c 0 len
    return_code ← try_fs c (flashfs_file_write c.littlefs fh write_buffer)
    send_u32 c return_code

  unfoldable pub recv_flashfs_file_seek : Handler S L F D I
  recv_flashfs_file_seek = do
    fh ← recv_u32 c
    offset ← recv_u32 c
    whence ← recv_u32 c
    return_code ← try_fs c (flashfs_file_seek c.littlefs fh offset whence)
    send_u32 c return_code

  unfoldable pub recv_flashfs_file_truncate : Handler S L F D I
  recv_flashfs_file_truncate = do
    fh ← recv_u32 c
    size ← recv_u32 c
    return_code ← try_fs c (flashfs_file_truncate c.littlefs fh size)
    send_u32 c return_code

  unfoldable pub recv_flashfs_mkdir : Handler S L F D I
  recv_flashfs_mkdir = do
    recv_string c 0
    path ← string_at c 0
    return_code ← on_fs c (flashfs_mkdir c.littlefs path)
    send_u32 c return_code

  unfoldable pub recv_flashfs_dir_open : Handler S L F D I
  recv_flashfs_dir_open = do
    recv_string c 0
    path ← string_at c 0
    dh ← try_fs c (flashfs_dir_open c.littlefs path)
    send_u32 c dh

  unfoldable pub recv_flashfs_dir_close : Handler S L F D I
  recv_flashfs_dir_close = do
    dh ← recv_u32 c
    return_code ← try_fs c (flashfs_dir_close c.littlefs dh)
    send_u32 c return_code

  -- The kind, the size and the name of the entry that littlefs filled last.
  unfoldable pub recv_flashfs_dir_read : Handler S L F D I
  recv_flashfs_dir_read = do
    dh ← recv_u32 c
    return_code ← try_fs c (flashfs_dir_read c.littlefs dh)
    file_info ← look c (λ b. b.fs.file_info)
    send_u32 c return_code
    send_u32 c (c.entry_type file_info)
    send_u32 c (c.entry_size file_info)
    to_link c (λ mode. comms_send_string c.usb c.i2c mode (c.entry_name file_info))
