-- ===== src/Tools.antt =====
-- The command line tools of skill/src/tools that change the connection store. Each loads the store,
-- changes it and ends; Arguments and Commands have the tools that also parse. Printing is not modelled.
pub mod Permissions
pub mod Control
pub mod Numbers
pub mod Arguments
pub mod Commands
pub mod Autonomy
pub mod Manifests
pub mod Queries
pub mod Bootstrap
pub mod Whoami
pub mod Audits
