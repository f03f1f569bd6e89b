-- ===== src/LogIter/Close.antt =====
-- `sparkey_logiter_close` of src/logreader.c.
use sparkey.Base.{Option, none, some, if◌then◌else◌, ◌==◌}
use sparkey.LogIter.{LogIter, magic_value_logiter}

-- What the pointer to an iterator is afterwards; `none` is NULL. The memory of the iterator is freed.
unfoldable pub logiter_close : Option LogIter → Option LogIter
logiter_close none = none
logiter_close (some iter) = if iter.open_status == magic_value_logiter then none else some iter
