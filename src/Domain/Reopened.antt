-- ===== src/Domain/Reopened.antt =====
-- The slug of an item that is reopened.
use workitem.Model.Manifest.{State, Manifest}
